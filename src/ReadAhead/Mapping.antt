-- ===== src/ReadAhead/Mapping.antt =====
-- `Read` leaves the Name2Name object.
use xrootd_hdfs.Base.{
  ℕ, zero, suc, ℤ, pos, ◌+◌, ◌-◌, ◌&&◌, Option, none, some, Bytes, length, ltb, leb, ◌≡◌, refl, inl,
  inr, Bool-cases, OnSome,
}
use xrootd_hdfs.Env.{Env, External, N2n}
use xrootd_hdfs.Plugin.{emsg}
use xrootd_hdfs.ReadAhead.{
  ReadBuf, Reply, interrupted, broken, at_end, loaded, reply, Filled, stop_with, resume, hit,
  answer, finish, finish_filled, fill, front, count_front, read_around, refill, read, sub_size,
  add_size, bump, store,
}

module _ {W : Type 0} (n : Option N2n) where
  resume-same :
      (again : ReadBuf → Env W → Option (Filled W)) (b : ReadBuf) (r : Reply) (e : Env W)
      → e.n2n ≡ n
      → ((b' : ReadBuf) → OnSome (λ f. f.env.n2n ≡ n) (again b' e))
      → OnSome (λ f. f.env.n2n ≡ n) (resume again b r e)
  unfolding resume stop_with emsg
  resume-same again b interrupted e h next = next b
  resume-same again b broken e h next = h
  resume-same again b at_end e h next = h
  resume-same again b (loaded s) e h next = next (store b s)

  answer-same : (b : ReadBuf) (r : Reply) (e : Env W) → e.n2n ≡ n → (answer b r e).env.n2n ≡ n
  unfolding answer emsg
  answer-same b interrupted e h = h
  answer-same b broken e h = h
  answer-same b at_end e h = h
  answer-same b (loaded s) e h = h

  finish_filled-same :
      (head : Bytes) (blen : ℕ) (o : Option (Filled W))
      → OnSome (λ f. f.env.n2n ≡ n) o
      → OnSome (λ d. d.env.n2n ≡ n) (finish_filled head blen o)
  unfolding finish_filled
  finish_filled-same head blen none h = tt
  finish_filled-same head blen (some f) h = by_status f.status
    where
      by_status : (s : Option ℤ) → (finish s head blen f.buf f.env).env.n2n ≡ n
      by_status none = unfold finish in h
      by_status (some rc) = unfold finish in h

module _ {W : Type 0} (x : External W) (fs fh : Option ℕ) where
  fill-same :
      (fuel offset : ℕ) (n : Option N2n) (b : ReadBuf) (e : Env W)
      → e.n2n ≡ n
      → OnSome (λ f. f.env.n2n ≡ n) (fill x fs fh fuel offset b e)
  unfolding fill
  fill-same zero offset n b e h = tt
  fill-same (suc fuel) offset n b e h = elim (Bool-cases (ltb b.len b.size)) [
    | inr full ↦ rw (full, fill) h
    | inl free ↦
        let (r, w, m) = x.pread fs fh (offset + b.len) (b.size - b.len) e.world (pos 0) in
        let e' = record e { world = w; errno = m } in
        rw (free, fill)
          (resume-same n (fill x fs fh fuel offset) b (reply r m) e' h
            (λ b'. fill-same fuel offset n b' e' h))
  ]

  pub read-same :
      (fuel : ℕ) (b : ReadBuf) (offset blen : ℕ) (e : Env W)
      → OnSome (λ d. d.env.n2n ≡ e.n2n) (read x fs fh fuel b offset blen e)
  unfolding read refill read_around hit
  read-same fuel b offset blen e = elim (Bool-cases (ltb b.size blen)) [
    | inl large ↦
        let (r, w, m) = x.pread fs fh offset blen e.world (pos 0) in
        rw large (
          answer-same e.n2n (record b { bypassed = bump b.bypassed }) (reply r m)
            (record e { world = w; errno = m }) refl)
    | inr small ↦
        elim (Bool-cases
          (leb b.offset offset && leb (add_size offset blen) (add_size b.offset b.len))) [
            | inl held ↦ rw (small, held) refl
            | inr miss ↦
                rw (small, miss)
                  (let head = front b offset in
                    let next = offset + length head in
                    let start = record (count_front b offset) { offset = next; len = 0 } in
                    finish_filled-same e.n2n head (sub_size blen (length head))
                      (fill x fs fh fuel next start e) (fill-same fuel next e.n2n start e refl))
          ]
  ]

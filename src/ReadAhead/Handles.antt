-- ===== src/ReadAhead/Handles.antt =====
-- `Read` leaves the files that are open in HDFS.
use xrootd_hdfs.Base.{
  ℕ, zero, suc, ℤ, pos, ◌+◌, ◌-◌, ◌&&◌, Option, none, some, Bytes, length, ltb, leb, ◌≡◌, refl, ◌∙◌,
  inl, inr, Bool-cases, OnSome,
}
use xrootd_hdfs.Env.{Env, External}
use xrootd_hdfs.Plugin.{emsg}
use xrootd_hdfs.Plugin.Handles.{Counts}
use xrootd_hdfs.ReadAhead.{
  ReadBuf, Reply, interrupted, broken, at_end, loaded, reply, Filled, stop_with, resume, hit,
  answer, finish, finish_filled, fill, front, count_front, read_around, refill, read, sub_size,
  add_size, bump, store,
}

module _ {W : Type 0} (count : W → ℕ) (n : ℕ) where
  resume-kept :
      (again : ReadBuf → Env W → Option (Filled W)) (b : ReadBuf) (r : Reply) (e : Env W)
      → count e.world ≡ n
      → ((b' : ReadBuf) → OnSome (λ f. count f.env.world ≡ n) (again b' e))
      → OnSome (λ f. count f.env.world ≡ n) (resume again b r e)
  unfolding resume stop_with emsg
  resume-kept again b interrupted e h next = next b
  resume-kept again b broken e h next = h
  resume-kept again b at_end e h next = h
  resume-kept again b (loaded s) e h next = next (store b s)

  answer-kept :
      (b : ReadBuf) (r : Reply) (e : Env W) → count e.world ≡ n → count (answer b r e).env.world ≡ n
  unfolding answer emsg
  answer-kept b interrupted e h = h
  answer-kept b broken e h = h
  answer-kept b at_end e h = h
  answer-kept b (loaded s) e h = h

  finish_filled-kept :
      (head : Bytes) (blen : ℕ) (o : Option (Filled W))
      → OnSome (λ f. count f.env.world ≡ n) o
      → OnSome (λ d. count d.env.world ≡ n) (finish_filled head blen o)
  unfolding finish_filled
  finish_filled-kept head blen none h = tt
  finish_filled-kept head blen (some f) h = by_status f.status
    where
      by_status : (s : Option ℤ) → count (finish s head blen f.buf f.env).env.world ≡ n
      by_status none = unfold finish in h
      by_status (some rc) = unfold finish in h

module _ {W : Type 0} (x : External W) (count : W → ℕ) (counts : Counts x count)
    (fs fh : Option ℕ) where
  fill-kept :
      (fuel offset n : ℕ) (b : ReadBuf) (e : Env W)
      → count e.world ≡ n
      → OnSome (λ f. count f.env.world ≡ n) (fill x fs fh fuel offset b e)
  unfolding fill
  fill-kept zero offset n b e h = tt
  fill-kept (suc fuel) offset n b e h = elim (Bool-cases (ltb b.len b.size)) [
    | inr full ↦ rw (full, fill) h
    | inl free ↦
        let (r, w, m) = x.pread fs fh (offset + b.len) (b.size - b.len) e.world (pos 0) in
        let e' = record e { world = w; errno = m } in
        let kept = counts.pread fs fh (offset + b.len) (b.size - b.len) e.world (pos 0) ∙ h in
        rw (free, fill)
          (resume-kept count n (fill x fs fh fuel offset) b (reply r m) e' kept
            (λ b'. fill-kept fuel offset n b' e' kept))
  ]

  pub read-kept :
      (fuel : ℕ) (b : ReadBuf) (offset blen : ℕ) (e : Env W)
      → OnSome (λ d. count d.env.world ≡ count e.world) (read x fs fh fuel b offset blen e)
  unfolding read refill read_around hit
  read-kept fuel b offset blen e = elim (Bool-cases (ltb b.size blen)) [
    | inl large ↦
        let (r, w, m) = x.pread fs fh offset blen e.world (pos 0) in
        rw large (
          answer-kept count (count e.world) (record b { bypassed = bump b.bypassed }) (reply r m)
            (record e { world = w; errno = m }) (counts.pread fs fh offset blen e.world (pos 0)))
    | inr small ↦
        elim (Bool-cases
          (leb b.offset offset && leb (add_size offset blen) (add_size b.offset b.len))) [
            | inl held ↦ rw (small, held) refl
            | inr miss ↦
                rw (small, miss)
                  (let head = front b offset in
                    let next = offset + length head in
                    let start = record (count_front b offset) { offset = next; len = 0 } in
                    finish_filled-kept count (count e.world) head (sub_size blen (length head))
                      (fill x fs fh fuel next start e)
                      (fill-kept fuel next (count e.world) start e refl))
          ]
  ]

-- ===== src/ReadAhead/Reliable.antt =====
-- `Read` where no `hdfsPread` fails but by an interruption: no code of `Read` but -EINTR is an error.
use xrootd_hdfs.Base.{
  ℕ, zero, suc, ℤ, pos, neg, ◌+◌, ◌-◌, ◌&&◌, Option, none, some, [], ◌∷◌, Bytes, true, false,
  length, ltb, leb, is_set, eq_ℤ, ◌≡◌, refl, ap, inl, inr, Bool-cases, OnSome,
}
use xrootd_hdfs.Env.{Env, External, Pread, got, failed, eintr}
use xrootd_hdfs.Plugin.{emsg, emsg_code}
use xrootd_hdfs.ReadAhead.{
  ReadBuf, reply, Result, bytes, error, Filled, resume, hit, answer, finish, finish_filled, fill,
  front, count_front, read_around, refill, read, sub_size, add_size, bump, store,
}

-- A call that fails was interrupted, and one that gives no byte leaves `errno` as it was reset.
abbrev pub Quiet : Pread → ℤ → Type 0
Quiet failed n = n ≡ eintr
Quiet (got []) n = n ≡ pos 0
Quiet (got (c ∷ s)) n = Unit {0}

pub record Reliable {W : Type 0} (x : External W) (fs fh : Option ℕ) : Type 0 where
  pub quiet : (w : W) (off len : ℕ) → let (r, _, n') = x.pread fs fh off len w (pos 0) in Quiet r n'

-- Bytes, or -EINTR, on which `GetFileContents` and `Calc` read again.
abbrev pub Retried : Result → Type 0
Retried (bytes s) = Unit {0}
Retried (error rc) = eq_ℤ rc (neg eintr) ≡ true

module _ {W : Type 0} where
  abbrev Through : Filled W → Type 0
  Through f = f.status ≡ none

  resume-Through :
      (again : ReadBuf → Env W → Option (Filled W)) (b : ReadBuf) (r : Pread) (e : Env W)
      → Quiet r e.errno
      → ((b' : ReadBuf) → OnSome Through (again b' e))
      → OnSome Through (resume again b (reply r e.errno) e)
  unfolding resume
  resume-Through again b failed e q next =
      let t : eq_ℤ e.errno eintr ≡ true = ap (λ n. eq_ℤ n eintr) q in rw t (next b)
  resume-Through again b (got []) e q next =
      let t : is_set e.errno ≡ false = ap is_set q in rw t refl
  resume-Through again b (got (c ∷ s)) e q next = next (store b (c ∷ s))

  answer-Retried :
      (b : ReadBuf) (r : Pread) (e : Env W)
      → Quiet r e.errno
      → Retried (answer b (reply r e.errno) e).result
  unfolding answer emsg
  answer-Retried b failed e q =
      let t : eq_ℤ e.errno eintr ≡ true = ap (λ n. eq_ℤ n eintr) q in
      rw t (ap (λ n. eq_ℤ (emsg_code n) (neg eintr)) q)
  answer-Retried b (got []) e q = let t : is_set e.errno ≡ false = ap is_set q in rw t tt
  answer-Retried b (got (c ∷ s)) e q = tt

  finish_filled-Retried :
      (head : Bytes) (blen : ℕ) (o : Option (Filled W))
      → OnSome Through o
      → OnSome (λ d. Retried d.result) (finish_filled head blen o)
  unfolding finish_filled finish
  finish_filled-Retried head blen none h = tt
  finish_filled-Retried head blen (some f) h = rw h tt

module _ {W : Type 0} (x : External W) (fs fh : Option ℕ) (rel : Reliable x fs fh) where
  fill-Through :
      (fuel offset : ℕ) (b : ReadBuf) (e : Env W) → OnSome Through (fill x fs fh fuel offset b e)
  unfolding fill
  fill-Through zero offset b e = tt
  fill-Through (suc fuel) offset b e = elim (Bool-cases (ltb b.len b.size)) [
    | inr full ↦ rw (full, fill) refl
    | inl free ↦
        let p = x.pread fs fh (offset + b.len) (b.size - b.len) e.world (pos 0) in
        let e' = record e { world = p.1; errno = p.2 } in
        rw (free, fill)
          (resume-Through (fill x fs fh fuel offset) b p.0 e'
            (rel.quiet e.world (offset + b.len) (b.size - b.len))
            (λ b'. fill-Through fuel offset b' e'))
  ]

  pub read-Retried :
      (fuel : ℕ) (b : ReadBuf) (offset blen : ℕ) (e : Env W)
      → OnSome (λ d. Retried d.result) (read x fs fh fuel b offset blen e)
  unfolding read refill read_around hit
  read-Retried fuel b offset blen e = elim (Bool-cases (ltb b.size blen)) [
    | inl large ↦
        let p = x.pread fs fh offset blen e.world (pos 0) in
        rw large (
          answer-Retried (record b { bypassed = bump b.bypassed }) p.0
            (record e { world = p.1; errno = p.2 }) (rel.quiet e.world offset blen))
    | inr small ↦
        elim (Bool-cases
          (leb b.offset offset && leb (add_size offset blen) (add_size b.offset b.len))) [
            | inl held ↦ rw (small, held) tt
            | inr miss ↦
                rw (small, miss)
                  (let head = front b offset in
                    let next = offset + length head in
                    let start = record (count_front b offset) { offset = next; len = 0 } in
                    finish_filled-Retried head (sub_size blen (length head))
                      (fill x fs fh fuel next start e) (fill-Through fuel next start e))
          ]
  ]

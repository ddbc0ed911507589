-- ===== src/ReadAhead/Spending.antt =====
-- What a call of `Read` leaves of the interruptions to come.
use xrootd_hdfs.Base.{
  ℕ, zero, suc, ℤ, pos, neg, ◌+◌, ◌-◌, ◌≤◌, ◌<◌, Option, none, some, [], ◌∷◌, ◌&&◌, length, ltb,
  leb, is_set, eq_ℤ, ◌≡◌, inl, inr, arith, Bool-cases, true, Bytes, OnSome, OnSome-weaken,
}
use xrootd_hdfs.Env.{Env, External, Pread, got, failed, eintr}
use xrootd_hdfs.Plugin.{emsg, emsg_code}
use xrootd_hdfs.ReadAhead.{
  ReadBuf, reply, Result, bytes, error, Filled, stop_with, resume, hit, answer, finish,
  finish_filled, fill, front, count_front, read_around, refill, read, sub_size, add_size, bump,
  store,
}
use xrootd_hdfs.ReadAhead.Fill.{Serves, Spends}

-- What a call of `hdfsPread` leaves of the interruptions to come.
abbrev pub Leaves : ℕ → ℕ → Pread → ℤ → Type 0
Leaves before after (got (c ∷ s)) n = after ≤ before
Leaves before after (got []) n = eq_ℤ (emsg_code n) (neg eintr) ≡ true → after < before
Leaves before after failed n = eq_ℤ (emsg_code n) (neg eintr) ≡ true → after < before

-- Calls that give no byte leave EINTR in an `errno` that was reset at most `budget w` times from the
-- world `w` on.
pub record Interrupts {W : Type 0} (x : External W) (fs fh : Option ℕ) (budget : W → ℕ)
    : Type 0 where
  pub leaves :
      (w : W) (off len : ℕ)
      → let (r, w', n') = x.pread fs fh off len w (pos 0) in Leaves (budget w) (budget w') r n'

-- The code of a call that may be tried again: with -EINTR, fewer interruptions are left.
abbrev Retries : ℕ → ℕ → ℤ → Type 0
Retries before after rc = (after ≤ before) × (eq_ℤ rc (neg eintr) ≡ true → after < before)

abbrev pub Costs : ℕ → ℕ → Result → Type 0
Costs before after (bytes s) = after ≤ before
Costs before after (error rc) = Retries before after rc

pub Costs-le : {before after : ℕ} (r : Result) → Costs before after r → after ≤ before
Costs-le (bytes s) c = c
Costs-le (error rc) c = c.0

-- A block makes what is left shorter.
pub shrinks :
    (n offset k before after rounds : ℕ)
    → 0 < k
    → k ≤ n - offset
    → after ≤ before
    → n - offset + before < suc rounds
    → n - (offset + k) + after < rounds
shrinks n offset k before after rounds some_block inside spent enough = omega arith

abbrev FillCosts : ℕ → ℕ → Option ℤ → Type 0
FillCosts before after none = after ≤ before
FillCosts before after (some rc) = Retries before after rc

FillCosts-le :
    (before mid after : ℕ) (status : Option ℤ)
    → mid ≤ before
    → FillCosts mid after status
    → FillCosts before after status
FillCosts-le before mid after none h c = omega arith
FillCosts-le before mid after (some rc) h c = (omega (arith, c.0), λ p. omega (arith, c.1 p))

module _ {W : Type 0} (budget : W → ℕ) where
  abbrev Filling : ℕ → Filled W → Type 0
  Filling before f = FillCosts before (budget f.env.world) f.status

  stop_with-Filling :
      (b : ReadBuf) (e : Env W) (before : ℕ)
      → budget e.world ≤ before
      → (eq_ℤ (emsg_code e.errno) (neg eintr) ≡ true → budget e.world < before)
      → Filling before (stop_with b e)
  unfolding stop_with emsg
  stop_with-Filling b e before h l = (h, l)

  -- The rounds behind one that left `budget e.world` interruptions.
  later :
      (again : ReadBuf → Env W → Option (Filled W)) (b : ReadBuf) (e : Env W) (before : ℕ)
      → budget e.world ≤ before
      → ((b' : ReadBuf) (e' : Env W) → OnSome (Filling (budget e'.world)) (again b' e'))
      → OnSome (Filling before) (again b e)
  later again b e before h next =
      OnSome-weaken (Filling (budget e.world)) (Filling before) (again b e)
        (λ f c. FillCosts-le before (budget e.world) (budget f.env.world) f.status h c) (next b e)

  resume-Filling :
      (again : ReadBuf → Env W → Option (Filled W)) (b : ReadBuf) (r : Pread) (e : Env W)
      (before : ℕ)
      → Spends before (budget e.world) r e.errno
      → Leaves before (budget e.world) r e.errno
      → ((b' : ReadBuf) (e' : Env W) → OnSome (Filling (budget e'.world)) (again b' e'))
      → OnSome (Filling before) (resume again b (reply r e.errno) e)
  unfolding resume
  resume-Filling again b failed e before sp l next = elim (Bool-cases (eq_ℤ e.errno eintr)) [
    | inl t ↦ rw t (later again b e before sp.0 next)
    | inr t ↦ rw t (stop_with-Filling b e before sp.0 l)
  ]
  resume-Filling again b (got []) e before sp l next = elim (Bool-cases (is_set e.errno)) [
    | inl t ↦ rw t (stop_with-Filling b e before sp l)
    | inr t ↦ rw t sp
  ]
  resume-Filling again b (got (c ∷ s)) e before sp l next =
      later again (store b (c ∷ s)) e before sp next

  finish_filled-Costs :
      (head : Bytes) (blen before : ℕ) (o : Option (Filled W))
      → OnSome (Filling before) o
      → OnSome (λ d. Costs before (budget d.env.world) d.result) (finish_filled head blen o)
  unfolding finish_filled finish
  finish_filled-Costs head blen before none h = tt
  finish_filled-Costs head blen before (some f) h = by_status f.status h
    where
      by_status :
          (s : Option ℤ)
          → FillCosts before (budget f.env.world) s
          → let d = finish s head blen f.buf f.env in Costs before (budget d.env.world) d.result
      by_status none c = c
      by_status (some rc) c = c

  answer-Costs :
      (b : ReadBuf) (r : Pread) (e : Env W) (before : ℕ)
      → Spends before (budget e.world) r e.errno
      → Leaves before (budget e.world) r e.errno
      → let d = answer b (reply r e.errno) e in Costs before (budget d.env.world) d.result
  unfolding answer emsg
  answer-Costs b failed e before sp l = elim (Bool-cases (eq_ℤ e.errno eintr)) [
    | inl t ↦ rw t (sp.0, l)
    | inr t ↦ rw t (sp.0, l)
  ]
  answer-Costs b (got []) e before sp l = elim (Bool-cases (is_set e.errno)) [
    | inl t ↦ rw t (sp, l)
    | inr t ↦ rw t sp
  ]
  answer-Costs b (got (c ∷ s)) e before sp l = sp

module _ {W : Type 0} (x : External W) (fs fh : Option ℕ) (file : Bytes) (budget : W → ℕ)
    (sv : Serves x fs fh file budget) (it : Interrupts x fs fh budget) where
  fill-Filling :
      (fuel offset : ℕ) (b : ReadBuf) (e : Env W)
      → OnSome (Filling budget (budget e.world)) (fill x fs fh fuel offset b e)
  unfolding fill
  fill-Filling zero offset b e = tt
  fill-Filling (suc fuel) offset b e = elim (Bool-cases (ltb b.len b.size)) [
    | inr full ↦ rw (full, fill) (omega arith)
    | inl free ↦
        let p = x.pread fs fh (offset + b.len) (b.size - b.len) e.world (pos 0) in
        rw (free, fill)
          (resume-Filling budget (fill x fs fh fuel offset) b p.0
            (record e { world = p.1; errno = p.2 }) (budget e.world)
            (sv.spends e.world (pos 0) (offset + b.len) (b.size - b.len))
            (it.leaves e.world (offset + b.len) (b.size - b.len))
            (λ b' e'. fill-Filling fuel offset b' e'))
  ]

  -- A call of `Read` does not add to the interruptions to come, and one that gives -EINTR uses one up.
  pub read-Costs :
      (fuel : ℕ) (b : ReadBuf) (offset blen : ℕ) (e : Env W)
      → OnSome
          (λ d. Costs (budget e.world) (budget d.env.world) d.result)
          (read x fs fh fuel b offset blen e)
  unfolding read refill read_around hit
  read-Costs fuel b offset blen e = elim (Bool-cases (ltb b.size blen)) [
    | inl large ↦
        let p = x.pread fs fh offset blen e.world (pos 0) in
        rw large (
          answer-Costs budget (record b { bypassed = bump b.bypassed }) p.0
            (record e { world = p.1; errno = p.2 }) (budget e.world)
            (sv.spends e.world (pos 0) offset blen) (it.leaves e.world offset blen))
    | inr small ↦
        elim (Bool-cases
          (leb b.offset offset && leb (add_size offset blen) (add_size b.offset b.len))) [
            | inl held ↦ rw (small, held) (omega arith)
            | inr miss ↦
                rw (small, miss)
                  (let head = front b offset in
                    let next = offset + length head in
                    let start = record (count_front b offset) { offset = next; len = 0 } in
                    finish_filled-Costs budget head (sub_size blen (length head)) (budget e.world)
                      (fill x fs fh fuel next start e) (fill-Filling fuel next start e))
          ]
  ]

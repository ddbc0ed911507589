-- ===== src/ReadAhead/Fill.antt =====
-- The loop that fills the read-ahead buffer: it ends, and the buffer then holds the file's bytes.
use xrootd_hdfs.Base.{
  ℕ, zero, suc, ℤ, pos, is_neg, eq_ℤ, is_set, true, false, Option, none, some, [], ◌∷◌, ◌++◌, ◌+◌,
  ◌-◌, ◌≤◌, ◌<◌, min, ◌≡◌, refl, sym, ap, ap₂, ◌∙◌, ◌⊎◌, inl, inr, Bytes, length, slice, overwrite,
  length-overwrite, take, ltb, arith, Bool-cases, ltb→lt, ltb→le, slice-add, length-slice,
  length-take, take_past, take_all, take-append,
}
use xrootd_hdfs.Env.{Env, External, Pread, got, failed, eintr}
use xrootd_hdfs.Plugin.Errors.{emsg_neg}
use xrootd_hdfs.ReadAhead.{
  ReadBuf, contents, reply, store, Filled, resume, fill, store_mem, stop_with,
}

-- What hdfs.h says of `hdfsPread(fs, fh, off, _, len)` on a file: it gives at most `len` of the bytes
-- at `off`, none only at the end of the file.
abbrev pub Answers : Bytes → ℕ → ℕ → Pread → ℤ → Type 0
Answers file off len failed n = Unit {0}
Answers file off len (got []) n = is_set n ≡ false → slice file off len ≡ []
Answers file off len (got (c ∷ s)) n =
    (length (c ∷ s) ≤ len) × (slice file off (length (c ∷ s)) ≡ c ∷ s)

-- A call is interrupted at most `budget w` times from the world `w` on.
abbrev pub Spends : ℕ → ℕ → Pread → ℤ → Type 0
Spends before after failed n = (after ≤ before) × (eq_ℤ n eintr ≡ true → after < before)
Spends before after (got s) n = after ≤ before

pub record Serves {W : Type 0} (x : External W) (fs fh : Option ℕ) (file : Bytes) (budget : W → ℕ)
    : Type 0 where
  pub answers :
      (w : W) (n : ℤ) (off len : ℕ)
      → let (r, _, n') = x.pread fs fh off len w n in Answers file off len r n'
  pub spends :
      (w : W) (n : ℤ) (off len : ℕ)
      → let (r, w', n') = x.pread fs fh off len w n in Spends (budget w) (budget w') r n'

-- The bytes loaded into the buffer are the file's.
pub record IsValid (file : Bytes) (b : ReadBuf) : Type 0 where
  pub allocated : length (contents b.mem) ≡ b.size
  pub small : b.size ≤ 32768
  pub fits : b.len ≤ b.size
  pub held : slice (contents b.mem) 0 b.len ≡ slice file b.offset b.len
  pub in_file : b.len ≡ 0 ⊎ (b.offset + b.len ≤ length file)

abbrev pub Outcome : Bytes → ReadBuf → Option ℤ → Type 0
Outcome file b none = b.len ≡ min b.size (length file - b.offset)
Outcome file b (some rc) = is_neg rc ≡ true

pub record Settled {W : Type 0} (file : Bytes) (b : ReadBuf) (f : Filled W) : Type 0 where
  pub valid : IsValid file f.buf
  pub offset : f.buf.offset ≡ b.offset
  pub size : f.buf.size ≡ b.size
  pub outcome : Outcome file f.buf f.status

take-overwrite :
    (m : Bytes) (i : ℕ) (s : Bytes)
    → i + length s ≤ length m
    → take (i + length s) (overwrite m i s) ≡ take i m ++ s
take-overwrite m i s h =
    let e : i ≡ length (take i m) = omega (arith, length-take i m) in
    ap (λ k. take (k + length s) (overwrite m i s)) e
    ∙ take_past (length s) (take i m) _
    ∙ ap (λ t. take i m ++ t)
        (take-append (length s) s _ (omega arith) ∙ take_all (length s) s (omega arith))

contents-store_mem :
    (o : Option Bytes) (i : ℕ) (s : Bytes)
    → i + length s ≤ length (contents o)
    → 0 < length s
    → contents (store_mem o i s) ≡ overwrite (contents o) i s
contents-store_mem none i s h some_bytes = absurd (omega arith)
contents-store_mem (some m) i s h some_bytes = refl

-- Bytes of the file that are stored behind the buffer's keep the buffer valid.
store-IsValid :
    (file : Bytes) (b : ReadBuf) (s : Bytes)
    → IsValid file b
    → length s ≤ b.size - b.len
    → 0 < length s
    → slice file (b.offset + b.len) (length s) ≡ s
    → IsValid file (store b s)
store-IsValid file b s v room some_bytes same = record {
  allocated = rw written (length-overwrite m b.len s (omega arith) ∙ v.allocated);
  small = v.small;
  fits = omega arith;
  held =
      rw (written, take-overwrite m b.len s (omega arith), slice-add file b.offset b.len (length s))
        (ap₂ ◌++◌ v.held (sym same));
  in_file = inr (omega (arith, ap length same, length-slice file (b.offset + b.len) (length s)));
}
  where
    m : Bytes
    m = contents b.mem

    written : contents (store_mem b.mem b.len s) ≡ overwrite m b.len s
    written = contents-store_mem b.mem b.len s (omega arith) some_bytes

module _ {W : Type 0} (file : Bytes) (budget : W → ℕ) where
  -- The next rounds settle every valid buffer that they start with.
  abbrev pub Settles : ℕ → ℕ → (ReadBuf → Env W → Option (Filled W)) → Type 0
  Settles offset bound again =
      (b : ReadBuf) (e : Env W)
      → b.offset ≡ offset
      → IsValid file b
      → (b.size - b.len) + budget e.world < bound
      → (f : Filled W) × (again b e ≡ some f) × Settled file b f

  stopped : (b : ReadBuf) (e : Env W) → IsValid file b → Settled file b (stop_with b e)
  unfolding stop_with
  stopped b e v = record { valid = v; offset = refl; size = refl; outcome = emsg_neg e.errno e }

  -- One round settles the buffer, if the rounds behind it do.
  resume_lem :
      (offset bound : ℕ) (again : ReadBuf → Env W → Option (Filled W)) (b : ReadBuf) (e : Env W)
      (r : Pread) (before : ℕ)
      → Settles offset bound again
      → b.offset ≡ offset
      → IsValid file b
      → b.len < b.size
      → (b.size - b.len) + before < suc bound
      → Answers file (offset + b.len) (b.size - b.len) r e.errno
      → Spends before (budget e.world) r e.errno
      → (f : Filled W) × (resume again b (reply r e.errno) e ≡ some f) × Settled file b f
  unfolding resume
  resume_lem offset bound again b e failed before next o v more enough a sp =
      elim (Bool-cases (eq_ℤ e.errno eintr)) [
        | inl eintr_set ↦ rw eintr_set (next b e o v (omega (arith, sp.1 eintr_set)))
        | inr other ↦ rw other (stop_with b e, refl, stopped b e v)
      ]
  resume_lem offset bound again b e (got []) before next o v more enough a sp =
      elim (Bool-cases (is_set e.errno)) [
        | inl bad ↦ rw bad (stop_with b e, refl, stopped b e v)
        | inr fine ↦ rw fine (
          _,
          refl,
          record {
            valid = v;
            offset = refl;
            size = refl;
            outcome =
                omega
                  (arith, ap length (a fine), length-slice file (offset + b.len) (b.size - b.len));
          },
        )
      ]
  resume_lem offset bound again b e (got (c ∷ s)) before next o v more enough a sp =
      let same = ap (λ k. slice file (k + b.len) (length (c ∷ s))) o ∙ a.1 in
      let (f, p, st) =
        next (store b (c ∷ s)) e o (store-IsValid file b (c ∷ s) v a.0 (omega arith) same)
          (omega (arith, a.0)) in
      (f, p, record { valid = st.valid; offset = st.offset; size = st.size; outcome = st.outcome })

pub fill-Settles :
    {W : Type 0} (x : External W) (fs fh : Option ℕ) (file : Bytes) (budget : W → ℕ)
    → Serves x fs fh file budget
    → (fuel offset : ℕ) → Settles file budget offset fuel (fill x fs fh fuel offset)
unfolding fill
fill-Settles x fs fh file budget sv zero offset b e o v h = absurd (omega arith)
fill-Settles x fs fh file budget sv (suc fuel) offset b e o v h =
    elim (Bool-cases (ltb b.len b.size)) [
      | inl more ↦
          rw (more, fill)
            (resume_lem file budget offset fuel (fill x fs fh fuel offset) b _
              (x.pread fs fh (offset + b.len) (b.size - b.len) e.world (pos 0)).0 (budget e.world)
              (fill-Settles x fs fh file budget sv fuel offset) o v (ltb→lt _ _ more) h
              (sv.answers e.world (pos 0) (offset + b.len) (b.size - b.len))
              (sv.spends e.world (pos 0) (offset + b.len) (b.size - b.len)))
      | inr full ↦
          rw (full, fill)
            (
              _,
              refl,
              record {
                valid = v;
                offset = refl;
                size = refl;
                outcome = omega (arith, ltb→le _ _ full);
              },
            )
    ]

-- The loop of `Read` ends: from a valid buffer at the offset, with fuel for each free byte and each
-- interruption, it gives a valid buffer of the same size at the same offset. It stops with a negative
-- code, or the buffer then holds all that fits of the file from its offset on.
pub fill-Settled :
    {W : Type 0} (x : External W) (fs fh : Option ℕ) (file : Bytes) (budget : W → ℕ) (fuel : ℕ)
    (b : ReadBuf) (e : Env W)
    → Serves x fs fh file budget
    → IsValid file b
    → (b.size - b.len) + budget e.world < fuel
    → (f : Filled W) × (fill x fs fh fuel b.offset b e ≡ some f) × Settled file b f
fill-Settled x fs fh file budget fuel b e sv v enough =
    fill-Settles x fs fh file budget sv fuel b.offset b e refl v enough

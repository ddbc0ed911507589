-- ===== src/EnvCheck/Printing.antt =====
-- What the program prints on an output that takes every write whole.
use xrootd_hdfs.Base.{
  ℕ, suc, ℤ, pos, ◌+◌, ◌-◌, ◌^◌, ◌<◌, Option, none, some, [], ◌∷◌, ◌++◌, Bytes, length, take, slice,
  ◌≡◌, refl, sym, ap, ◌∙◌, arith, All, take_all, take-append, length-append, append_assoc,
  append-nil, ne→==,
}
use xrootd_hdfs.Env.{codes}
use xrootd_hdfs.ReadAhead.{sub_size}
use xrootd_hdfs.EnvCheck.{
  Stdout, as_size, bufsize, print_into, Vars, Written, after_write, safe_write, write_nul, xwrite,
  unless_failed, print_vars,
}

-- The lines: a name, `=`, a value and a NUL for each variable that is set.
unfoldable pub lines : Vars → Bytes
lines [] = []
lines ((name, none) ∷ vars) = lines vars
lines ((name, some value) ∷ vars) = name ++ b'=' ∷ (value ++ 0 ∷ lines vars)

-- A pipe that takes all that it is given; `output` is what went through it.
pub record TakesAll {W : Type 0} (o : Stdout W) (output : W → Bytes) : Type 0 where
  pub whole : (buf : Bytes) (cur n : ℕ) (w : W) (e : ℤ) → (o.write_out buf cur n w e).0 ≡ pos n
  pub printed :
      (buf : Bytes) (cur n : ℕ) (w : W) (e : ℤ)
      → output (o.write_out buf cur n w e).1 ≡ output w ++ slice buf cur n

module _ {W : Type 0} (o : Stdout W) where
  safe_write_round :
      (fuel : ℕ) (buf : Bytes) (cur len : ℕ) (r : ℤ) (w : W) (e : ℤ)
      → 0 < len
      → safe_write o (suc fuel) buf cur len r w e
        ≡ after_write
            (safe_write o fuel buf)
            cur
            len
            (o.write_out buf cur (sub_size len (as_size r)) w e)
  unfolding safe_write
  safe_write_round fuel buf cur len r w e some_left =
      rw (ne→== len 0 (λ z. absurd (omega arith)), safe_write) refl

  after_write_pos :
      (again : ℕ → ℕ → ℤ → W → ℤ → Written W) (cur len k : ℕ) (r : ℤ × W × ℤ)
      → r.0 ≡ pos k
      → after_write again cur len r
        ≡ again (cur + k) (sub_size len (as_size (pos k))) (pos k) r.1 r.2
  unfolding after_write
  after_write_pos again cur len k r h = ap (λ z. after_write again cur len (z, r.1, r.2)) h

-- A variable that fits the buffer with its name.
abbrev pub Fits : Bytes × Option Bytes → Type 0
Fits (name, none) = Unit {0}
Fits (name, some value) = length name + length value + 1 < bufsize

front_lem : (text s rest : Bytes) → s ≡ text → take (length text) ((s ++ 0 ∷ []) ++ rest) ≡ text
front_lem text s rest h =
    ap (λ t. take (length text) ((t ++ 0 ∷ []) ++ rest)) h
    ∙ take-append (length text) (text ++ 0 ∷ []) rest (omega (arith, length-append text (0 ∷ [])))
    ∙ take-append (length text) text (0 ∷ []) (omega arith)
    ∙ take_all (length text) text (omega arith)

take-print_into :
    (mem text : Bytes) → length text < bufsize → take (length text) (print_into mem text) ≡ text
unfolding print_into
take-print_into mem text h =
    front_lem text (take (bufsize - 1) text) _ (take_all (bufsize - 1) text (omega arith))

module _ {W : Type 0} (o : Stdout W) (output : W → Bytes) (t : TakesAll o output) where
  -- One call does it, if there is something to write.
  safe_write_whole :
      (fuel : ℕ) (buf : Bytes) (len : ℕ) (w : W) (e : ℤ)
      → 0 < len
      → len < 2 ^ 63
      → let r = o.write_out buf 0 len w e in
        safe_write o (suc (suc fuel)) buf 0 len (pos 0) w e ≡ some (pos 0, r.1, r.2)
  safe_write_whole fuel buf len w e some_left small =
      let r = o.write_out buf 0 len w e in
      let all : sub_size len (as_size (pos 0)) ≡ len = omega arith in
      let left : sub_size len (as_size (pos len)) ≡ 0 = omega arith in
      safe_write_round o (suc fuel) buf 0 len (pos 0) w e some_left
      ∙ ap (λ c. after_write (safe_write o (suc fuel) buf) 0 len (o.write_out buf 0 c w e)) all
      ∙ after_write_pos o (safe_write o (suc fuel) buf) 0 len len r (t.whole buf 0 len w e)
      ∙ ap (λ c. safe_write o (suc fuel) buf (0 + len) c (pos len) r.1 r.2) left
      ∙ nothing_left fuel buf (0 + len) (pos len) r.1 r.2
    where
      nothing_left :
          (fuel : ℕ) (buf : Bytes) (cur : ℕ) (r : ℤ) (w : W) (e : ℤ)
          → safe_write o (suc fuel) buf cur 0 r w e ≡ some (pos 0, w, e)
      nothing_left fuel buf cur r w e = unfold safe_write in refl

  xwrite_whole :
      (fuel : ℕ) (buf : Bytes) (len : ℕ) (w : W) (e : ℤ)
      → 0 < len
      → len < 2 ^ 63
      → (w' : W) × (n : ℤ) × (xwrite o (suc (suc fuel)) buf len w e ≡ some (none, w', n))
        × (output w' ≡ output w ++ (take len buf ++ 0 ∷ []))
  unfolding xwrite write_nul
  xwrite_whole fuel buf len w e some_left small =
      let r = o.write_out buf 0 len w e in
      let r2 = o.write_out (codes "\0\0") 0 1 r.1 r.2 in
      (
        r2.1,
        r2.2,
        rw
            (
              safe_write_whole fuel buf len w e some_left small,
              safe_write_whole fuel (codes "\0\0") 1 r.1 r.2 (omega arith) (omega arith),
            )
            refl,
        t.printed (codes "\0\0") 0 1 r.1 r.2
            ∙ ap (λ s. s ++ 0 ∷ []) (t.printed buf 0 len w e)
            ∙ append_assoc (output w) (take len buf) (0 ∷ []),
      )

  -- On an output that takes every write whole, the program prints a line for each variable that is set,
  -- in order, and gives 0, if each fits the buffer with its name.
  pub print_vars_lem :
      (vars : Vars) (fuel : ℕ) (mem : Bytes) (w : W) (e : ℤ)
      → All Fits vars
      → (w' : W) × (n : ℤ) × (print_vars o (suc (suc fuel)) mem vars w e ≡ some (pos 0, w', n))
        × (output w' ≡ output w ++ lines vars)
  unfolding print_vars lines unless_failed
  print_vars_lem [] fuel mem w e h = (w, e, refl, sym (append-nil (output w)))
  print_vars_lem ((name, none) ∷ vars) fuel mem w e h = print_vars_lem vars fuel mem w e h.1
  print_vars_lem ((name, some value) ∷ vars) fuel mem w e h =
      let text = name ++ b'=' ∷ value in
      let size : length text ≡ length name + length value + 1 =
        omega (arith, length-append name (b'=' ∷ value)) in
      let mem' = print_into mem text in
      let (w1, n1, p1, q1) =
        xwrite_whole fuel mem' (length text) w e (omega (arith, size)) (omega (arith, size, h.0)) in
      let (w2, n2, p2, q2) = print_vars_lem vars fuel mem' w1 n1 h.1 in
      (
        w2,
        n2,
        ap (unless_failed (print_vars o (suc (suc fuel)) mem' vars)) p1 ∙ p2,
        q2
            ∙ ap (λ s. s ++ lines vars)
                (q1
                  ∙ ap (λ s. output w ++ (s ++ 0 ∷ []))
                      (take-print_into mem text (omega (arith, size, h.0))))
            ∙ append_assoc (output w) (text ++ 0 ∷ []) (lines vars)
            ∙ ap (λ s. output w ++ s)
                (append_assoc text (0 ∷ []) (lines vars)
                  ∙ append_assoc name (b'=' ∷ value) (0 ∷ lines vars)),
      )

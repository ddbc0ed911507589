-- ===== src/Bootstrap/RoundTrip.antt =====
-- What the program of EnvCheck.antt prints is what the loader sets.
use xrootd_hdfs.Base.{
  ℕ, suc, ℤ, pos, ◌≤◌, ◌<◌, Option, none, some, List, [], ◌∷◌, ◌++◌, Bytes, Bool, true, false,
  length, ◌==◌, ◌≡◌, refl, sym, ap, ◌∙◌, inl, inr, arith, All, Bool-cases, length-append,
  append_assoc, if◌then◌else◌, All-append,
}
use xrootd_hdfs.Env.{codes}
use xrootd_hdfs.EnvCheck.{Stdout, Vars, vars_of, main}
use xrootd_hdfs.EnvCheck.Printing.{lines, TakesAll, Fits, print_vars_lem}
use xrootd_hdfs.Bootstrap.{Scan, Environ, scan_entry, scan_output, first_scan}
use xrootd_hdfs.Bootstrap.Scanning.{
  IsPlain, IsPlainVar, flat, scan_entries, IsEntry, scan_output_entries,
}

-- The strings that are printed.
entries : Vars → List Bytes
entries [] = []
entries ((name, none) ∷ vars) = entries vars
entries ((name, some value) ∷ vars) = (name ++ b'=' ∷ value) ∷ entries vars

flat-entries : (vars : Vars) → flat (entries vars) ≡ lines vars
unfolding flat entries lines
flat-entries [] = refl
flat-entries ((name, none) ∷ vars) = flat-entries vars
flat-entries ((name, some value) ∷ vars) =
    append_assoc name (b'=' ∷ value) (0 ∷ flat (entries vars))
    ∙ ap (λ s. name ++ b'=' ∷ (value ++ 0 ∷ s)) (flat-entries vars)

length-entries : (vars : Vars) → length (entries vars) ≤ length vars
unfolding entries
length-entries [] = omega arith
length-entries ((name, none) ∷ vars) = omega (arith, length-entries vars)
length-entries ((name, some value) ∷ vars) = omega (arith, length-entries vars)

-- The variables of a process once those that are set have been put in, in order.
unfoldable pub assigned : Vars → Environ → Environ
assigned [] environ = environ
assigned ((name, none) ∷ vars) environ = assigned vars environ
assigned ((name, some value) ∷ vars) environ = assigned vars ((name, value) ∷ environ)

lines-Fits : (vars : Vars) → length (lines vars) ≤ 8190 → All Fits vars
unfolding lines
lines-Fits [] h = tt
lines-Fits ((name, none) ∷ vars) h = (tt, lines-Fits vars h)
lines-Fits ((name, some value) ∷ vars) h =
    let size1 = length-append name (b'=' ∷ (value ++ 0 ∷ lines vars)) in
    let size2 = length-append value (0 ∷ lines vars) in
    (omega (arith, size1, size2), lines-Fits vars (omega (arith, size1, size2)))

is_plain : Bytes → Bool
is_plain [] = true
is_plain (c ∷ s) = if c == 0 then false else (if c == 10 then false else is_plain s)

is_plain-IsPlain : (s : Bytes) → is_plain s ≡ true → IsPlain s
unfolding is_plain
is_plain-IsPlain [] h = tt
is_plain-IsPlain (c ∷ s) h = elim (Bool-cases (c == 0)) [
  | inl nul ↦ absurd (ground arith)
  | inr p ↦ elim (Bool-cases (c == 10)) [
    | inl newline ↦ absurd (ground arith)
    | inr q ↦ ((p, q), is_plain-IsPlain s (sym (rw (p, is_plain, q) refl) ∙ h))
  ]
]

IsEntry-of_var :
    (name value : Bytes) → is_plain name ≡ true → IsPlain value → IsEntry (name ++ b'=' ∷ value)
IsEntry-of_var name value p h = (
  omega (arith, length-append name (b'=' ∷ value)),
  All-append (λ c. ((c == 0) ≡ false) × ((c == 10) ≡ false)) name (b'=' ∷ value)
      (is_plain-IsPlain name p) ((refl, refl), h),
)

var-IsEntry :
    (name : Bytes) (value : Option Bytes) (vars : Vars)
    → is_plain name ≡ true
    → IsPlainVar value
    → All IsEntry (entries vars)
    → All IsEntry (entries ((name, value) ∷ vars))
unfolding entries
var-IsEntry name none vars p h hs = hs
var-IsEntry name (some value) vars p h hs = (IsEntry-of_var name value p h, hs)

vars-IsEntry :
    (a b c : Option Bytes)
    → IsPlainVar a
    → IsPlainVar b
    → IsPlainVar c
    → All IsEntry (entries (vars_of a b c))
unfolding entries is_plain
vars-IsEntry a b c ha hb hc = var-IsEntry (codes "CLASSPATH") a _ refl ha (
    var-IsEntry (codes "LIBHDFS_OPTS") b _ refl hb
      (var-IsEntry (codes "LD_LIBRARY_PATH") c [] refl hc tt))

-- Each of the three strings sets its own variable.
scan_entries-vars_of :
    (a b c : Option Bytes) (environ : Environ)
    → (scan_entries (first_scan environ) (entries (vars_of a b c))).environ
      ≡ assigned (vars_of a b c) environ
unfolding scan_entries scan_entry entries assigned
scan_entries-vars_of none none none environ = refl
scan_entries-vars_of none none (some c) environ = refl
scan_entries-vars_of none (some b) none environ = refl
scan_entries-vars_of none (some b) (some c) environ = refl
scan_entries-vars_of (some a) none none environ = refl
scan_entries-vars_of (some a) none (some c) environ = refl
scan_entries-vars_of (some a) (some b) none environ = refl
scan_entries-vars_of (some a) (some b) (some c) environ = refl

scan_output-lines :
    (a b c : Option Bytes) (environ : Environ)
    → IsPlainVar a
    → IsPlainVar b
    → IsPlainVar c
    → length (lines (vars_of a b c)) ≤ 8190
    → (s : Scan) × (scan_output (lines (vars_of a b c)) environ ≡ some s)
      × (s.environ ≡ assigned (vars_of a b c) environ)
scan_output-lines a b c environ ha hb hc short =
    let es = entries (vars_of a b c) in
    let size = ap length (flat-entries (vars_of a b c)) in
    let few : length es < 8192 = omega (arith, length-entries (vars_of a b c)) in
    (
      scan_entries (first_scan environ) es,
      ap (λ output. scan_output output environ) (sym (flat-entries (vars_of a b c)))
          ∙ scan_output_entries es environ (vars-IsEntry a b c ha hb hc) (omega (arith, size)) few,
      scan_entries-vars_of a b c environ,
    )

-- What the program prints on an output that takes every write whole, and that was empty, is what
-- `DetermineEnvironment` takes up: each of the three variables that is set for the program is set for the
-- loader to the same value, in order, and the others stay as they were. The values have no NUL and no
-- newline, and the output has at most 8190 bytes.
pub scan_output-main :
    {W : Type 0} (o : Stdout W) (output : W → Bytes) (a b c : Option Bytes) (environ : Environ)
    (fuel : ℕ) (zeroed : Bytes) (w : W) (e : ℤ)
    → TakesAll o output
    → output w ≡ []
    → IsPlainVar a
    → IsPlainVar b
    → IsPlainVar c
    → length (lines (vars_of a b c)) ≤ 8190
    → (w' : W) × (n : ℤ) × (s : Scan) × (main o (suc (suc fuel)) zeroed a b c w e
        ≡ some (pos 0, w', n))
      × (scan_output (output w') environ ≡ some s)
      × (s.environ ≡ assigned (vars_of a b c) environ)
unfolding main
scan_output-main o output a b c environ fuel zeroed w e t empty ha hb hc short =
    let (w', n, p, q) =
      print_vars_lem o output t (vars_of a b c) fuel zeroed w e
        (lines-Fits (vars_of a b c) short) in
    let (s, r, set) = scan_output-lines a b c environ ha hb hc short in
    (
      w',
      n,
      s,
      p,
      ap (λ text. scan_output text environ) (q ∙ ap (λ t. t ++ lines (vars_of a b c)) empty) ∙ r,
      set,
    )

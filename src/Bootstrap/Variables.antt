-- ===== src/Bootstrap/Variables.antt =====
-- Which strings `CheckEnvVar` takes for a variable.
use xrootd_hdfs.Base.{
  ℕ, none, some, [], ◌∷◌, ◌++◌, Bytes, true, false, length, take, ◌==◌, ◌≡◌, ◌≢◌, ◌↔◌, ◌⊎◌, inl,
  inr, refl, sym, ap, ◌∙◌, arith, All, Bool-cases, ==_self, ne→==, take-append-drop, drop,
  take-append, take_all, if◌then◌else◌,
}
use xrootd_hdfs.Plugin.{eq_bytes}
use xrootd_hdfs.Plugin.Connections.{eq_bytes_iff}
use xrootd_hdfs.Bootstrap.{cut_at, check_env_var, Environ}

-- A text with the byte `c` is cut at its first one.
pub cut_at-append : (c : ℕ) (s t : Bytes) → All (λ d. d ≢ c) s → cut_at c (s ++ c ∷ t) ≡ some (s, t)
unfolding cut_at
cut_at-append c [] t h = rw (==_self c) refl
cut_at-append c (d ∷ s) t h = rw (ne→== d c h.0, cut_at-append c s t h.1) refl

-- A text has no byte `c`, or is cut at its first one.
pub cut_at_cases :
    (c : ℕ) (s : Bytes)
    → (cut_at c s ≡ none)
      ⊎ ((name : Bytes) × (value : Bytes) × (cut_at c s ≡ some (name, value))
          × (s ≡ name ++ c ∷ value)
          × All (λ d. d ≢ c) name)
unfolding cut_at
cut_at_cases c [] = inl refl
cut_at_cases c (d ∷ s) = elim (Bool-cases (d == c)) [
  | inl here ↦ inr ([], s, rw here refl, ap (λ e. e ∷ s) (same d c here), tt)
  | inr later ↦ elim (cut_at_cases c s) [
    | inl p ↦ inl (rw (later, p) refl)
    | inr (name, value, p, q, h) ↦
        inr (d ∷ name, value, rw (later, p) refl, ap (◌∷◌ d) q, (differ d c later, h))
  ]
]
  where
    same : (a b : ℕ) → (a == b) ≡ true → a ≡ b
    same a b h = ground arith

    differ : (a b : ℕ) → (a == b) ≡ false → a ≢ b
    differ a b h = ground arith

take_prefix : (name rest : Bytes) → take (length name) (name ++ rest) ≡ name
take_prefix name rest =
    take-append (length name) name rest (omega arith) ∙ take_all (length name) name (omega arith)

check_env_var-none :
    (var input : Bytes) (environ : Environ)
    → cut_at b'=' input ≡ none
    → check_env_var var input environ ≡ none
unfolding check_env_var
check_env_var-none var input environ h = rw (h, check_env_var) refl

check_env_var-some :
    (var input name value : Bytes) (environ : Environ)
    → cut_at b'=' input ≡ some (name, value)
    → check_env_var var input environ
      ≡ (if eq_bytes name (take (length name) var) then some ((var, value) ∷ environ) else none)
unfolding check_env_var
check_env_var-some var input name value environ h = rw (h, check_env_var) refl

-- The string stands for the variable: what is before its first equals sign is a beginning of the name.
pub record StandsFor (var input : Bytes) (environ environ' : Environ) : Type 0 where
  pub name : Bytes
  pub rest : Bytes
  pub value : Bytes
  pub cut : input ≡ name ++ b'=' ∷ value
  pub first : All (λ d. d ≢ b'=') name
  pub beginning : var ≡ name ++ rest
  pub set : environ' ≡ (var, value) ∷ environ

-- `CheckEnvVar` sets a variable exactly if the string has an equals sign and what stands before the
-- first one is a beginning of the variable's name, the whole name or less; the value is what stands
-- behind the sign.
pub check_env_var_iff :
    (var input : Bytes) (environ environ' : Environ)
    → (check_env_var var input environ ≡ some environ') ↔ StandsFor var input environ environ'
check_env_var_iff var input environ environ' = (to, from)
  where
    to : check_env_var var input environ ≡ some environ' → StandsFor var input environ environ'
    to p = elim (cut_at_cases b'=' input) [
      | inl q ↦ absurd (ground (arith, check_env_var-none var input environ q))
      | inr (name, value, q, r, h) ↦
          let c = check_env_var-some var input name value environ q in
          elim (Bool-cases (eq_bytes name (take (length name) var))) [
            | inl prefix ↦ record {
              name = name;
              rest = drop (length name) var;
              value = value;
              cut = r;
              first = h;
              beginning =
                  sym (take-append-drop (length name) var)
                  ∙ ap (λ n. n ++ drop (length name) var)
                      (sym ((eq_bytes_iff name (take (length name) var)).0 prefix));
              set = ground (arith, c);
            }
            | inr other ↦ absurd (ground (arith, c))
          ]
    ]

    from : StandsFor var input environ environ' → check_env_var var input environ ≡ some environ'
    from f =
        let at_sign = cut_at-append b'=' f.name f.value f.first in
        let prefix : f.name ≡ take (length f.name) var =
          sym (take_prefix f.name f.rest) ∙ ap (take (length f.name)) (sym f.beginning) in
        check_env_var-some var input f.name f.value environ (ap (cut_at b'=') f.cut ∙ at_sign)
        ∙ rw ((eq_bytes_iff f.name (take (length f.name) var)).1 prefix) (ap some (sym f.set))

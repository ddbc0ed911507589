-- ===== src/Config/Directives.antt =====
-- The directives of a configuration file, and what they settle.
use mathlib.Core.Bool.{◌&&◌}
use xrootd_hdfs.Base.{
  ℕ, zero, suc, Option, none, some, List, [], ◌∷◌, Bytes, Bool, true, false, ◌≡◌, refl, sym, ap,
  ◌∙◌, inl, inr, arith, Bool-cases, if◌then◌else◌,
}
use xrootd_hdfs.Env.{codes}
use xrootd_hdfs.Plugin.{eq_bytes}
use xrootd_hdfs.Config.{Settings, parms_of, no_go_after, or_empty}

-- A record of the file: its first word, the next word, and the text behind it if it fits.
pub record Directive : Type 0 where
  pub name : Bytes
  pub word : Option Bytes
  pub rest : Option Bytes

abbrev pub is_namelib : Directive → Bool
is_namelib d = eq_bytes d.name (codes "oss.namelib")

-- A `namelib` directive names a library, and its parameters fit.
abbrev complete : Option Bytes → Option Bytes → Bool
complete none rest = false
complete (some []) rest = false
complete (some (c ∷ lib)) none = false
complete (some (c ∷ lib)) (some parms) = true

abbrev pub well_formed : Directive → Bool
well_formed d = if is_namelib d then complete d.word d.rest else true

abbrev pub all_well_formed : List Directive → Bool
all_well_formed [] = true
all_well_formed (d ∷ ds) = well_formed d && all_well_formed ds

abbrev pub or_this : Option Directive → Directive → Option Directive
or_this (some later) d = some later
or_this none d = if is_namelib d then some d else none

-- The last `namelib` directive.
unfoldable pub last_namelib : List Directive → Option Directive
last_namelib [] = none
last_namelib (d ∷ ds) = or_this (last_namelib ds) d

-- The settings with the library of a directive.
abbrev pub named : Settings → Option Directive → Settings
named k none = k
named k (some d) = record k { n2n_lib = d.word; n2n_parms = parms_of (or_empty d.rest) }

-- What one directive does.
unfoldable pub set_by : Option Bytes → Option Bytes → Settings → ℕ × Settings
set_by none rest k = (1, k)
set_by (some []) rest k = (1, k)
set_by (some (c ∷ lib)) none k = (1, record k { n2n_lib = some (c ∷ lib) })
set_by (some (c ∷ lib)) (some parms) k =
    (0, record k { n2n_lib = some (c ∷ lib); n2n_parms = parms_of parms })

unfoldable pub settled : List Directive → Settings → ℕ → ℕ × Settings
unfolding set_by
settled [] k no_go = (no_go, k)
settled (d ∷ ds) k no_go = elim (is_namelib d) [
  | false ↦ settled ds k no_go
  | true ↦ let (rc, k') = set_by d.word d.rest k in settled ds k' (no_go_after rc no_go)
]

set_by-complete :
    (word rest : Option Bytes) (k : Settings)
    → complete word rest ≡ true
    → set_by word rest k ≡ (0, record k { n2n_lib = word; n2n_parms = parms_of (or_empty rest) })
unfolding set_by
set_by-complete none rest k p = absurd (ground arith)
set_by-complete (some []) rest k p = absurd (ground arith)
set_by-complete (some (c ∷ lib)) none k p = absurd (ground arith)
set_by-complete (some (c ∷ lib)) (some parms) k p = refl

set_by-incomplete :
    (word rest : Option Bytes) (k : Settings)
    → complete word rest ≡ false
    → (set_by word rest k).0 ≡ 1
unfolding set_by
set_by-incomplete none rest k p = refl
set_by-incomplete (some []) rest k p = refl
set_by-incomplete (some (c ∷ lib)) none k p = refl
set_by-incomplete (some (c ∷ lib)) (some parms) k p = absurd (ground arith)

-- Well-formed directives: no error, and the last one counts.
pub settled-named :
    (ds : List Directive) (k : Settings) (n : ℕ)
    → all_well_formed ds ≡ true
    → settled ds k n ≡ (n, named k (last_namelib ds))
unfolding settled last_namelib
settled-named [] k n h = refl
settled-named (d ∷ ds) k n h' =
    let h = both (well_formed d) (all_well_formed ds) h' in
    elim (Bool-cases (is_namelib d)) [
      | inr other ↦
          rw (other, settled)
            (settled-named ds k n h.1 ∙ ap (λ o. (n, named k o)) (again (last_namelib ds) other))
      | inl here ↦
          let fine : complete d.word d.rest ≡ true = sym (rw here refl) ∙ h.0 in
          rw (here, settled)
            (ap (λ r. settled ds r.1 (no_go_after r.0 n)) (set_by-complete d.word d.rest k fine)
              ∙ settled-named ds (named k (some d)) n h.1
              ∙ ap (λ k'. (n, k')) (over (last_namelib ds) here))
    ]
  where
    both : (a b : Bool) → (a && b) ≡ true → (a ≡ true) × (b ≡ true)
    both true true p = (refl, refl)
    both true false p = absurd (ground arith)
    both false b p = absurd (ground arith)

    again : (o : Option Directive) → is_namelib d ≡ false → o ≡ or_this o d
    again none other = rw other refl
    again (some later) other = refl

    over :
        (o : Option Directive)
        → is_namelib d ≡ true
        → named (named k (some d)) o ≡ named k (or_this o d)
    over none here = rw here refl
    over (some later) here = refl

-- An error stays, and a directive that is not well formed is one.
settled_failed : (ds : List Directive) (k : Settings) → (settled ds k 1).0 ≡ 1
unfolding settled
settled_failed [] k = refl
settled_failed (d ∷ ds) k = elim (Bool-cases (is_namelib d)) [
  | inr other ↦ rw (other, settled) (settled_failed ds k)
  | inl here ↦
      let r = set_by d.word d.rest k in
      rw (here, settled) (ap (λ n. (settled ds r.1 n).0) (stays r.0) ∙ settled_failed ds r.1)
]
  where
    stays : (rc : ℕ) → no_go_after rc 1 ≡ 1
    stays zero = refl
    stays (suc rc) = refl

pub settled_malformed :
    (ds : List Directive) (k : Settings) (n : ℕ)
    → all_well_formed ds ≡ false
    → (settled ds k n).0 ≡ 1
unfolding settled
settled_malformed [] k n h = absurd (ground arith)
settled_malformed (d ∷ ds) k n h = elim (Bool-cases (is_namelib d)) [
  | inr other ↦ rw (other, settled) (settled_malformed ds k n (sym (rw other refl) ∙ h))
  | inl here ↦
      let r = set_by d.word d.rest k in
      rw (here, settled)
        (elim (Bool-cases (complete d.word d.rest)) [
          | inl fine ↦ settled_malformed ds r.1 (no_go_after r.0 n) (sym (rw (here, fine) refl) ∙ h)
          | inr bad ↦
              ap (λ rc. (settled ds r.1 (no_go_after rc n)).0)
                (set_by-incomplete d.word d.rest k bad)
              ∙ settled_failed ds r.1
        ])
]

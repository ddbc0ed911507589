-- ===== src/Base/Options.antt =====
-- What holds of a result that may be missing.
use mathlib.Core.Path.{◌≡◌, ap, subst}
use mathlib.Core.Option.{Option, none, some}
use native.Mathlib.Omega.{arith}

-- What holds of a result, if there is one.
abbrev pub OnSome {ℓ κ} : {A : Type ℓ} → (A → Type κ) → Option A → Type κ
OnSome P none = Unit
OnSome P (some a) = P a

-- A result that is there has what holds of each.
pub on_some {ℓ κ} :
    {A : Type ℓ} (P : A → Type κ) (o : Option A) (a : A) → o ≡ some a → OnSome P o → P a
on_some P none a p h = absurd (ground arith)
on_some P (some b) a p h = subst P (ap (λ o. elim o [ none ↦ b | some c ↦ c ]) p) h

pub OnSome-weaken {ℓ κ μ} :
    {A : Type ℓ} (P : A → Type κ) (Q : A → Type μ) (o : Option A)
    → ((a : A) → P a → Q a)
    → OnSome P o
    → OnSome Q o
OnSome-weaken P Q none f h = tt
OnSome-weaken P Q (some a) f h = f a h

-- ===== src/Text/Words.antt =====
-- The bytes of the words that numbers and digests are written with.
use xrootd_hdfs.Base.{
  ℕ, zero, suc, ◌/◌, ◌<◌, [], ◌∷◌, Bytes, ltb, arith, inl, inr, Bool-cases, All, All-append, ◌++◌,
}
use xrootd_hdfs.Text.{digits_of, decimal, human_readable_evp}

-- A byte behind `+` in ASCII: no blank, no NUL.
abbrev pub IsPlain : ℕ → Type 0
IsPlain c = 43 < c

digits_of-IsPlain :
    (fuel n : ℕ) (out : Bytes) → All IsPlain out → All IsPlain (digits_of fuel n out)
unfolding digits_of
digits_of-IsPlain zero n out h = h
digits_of-IsPlain (suc fuel) n out h = elim (Bool-cases (ltb n 10)) [
  | inl last ↦ rw last (omega arith, h)
  | inr more ↦ rw more (digits_of-IsPlain fuel (n / 10) _ (omega arith, h))
]

decimal-IsPlain : (n : ℕ) → All IsPlain (decimal n)
unfolding decimal
decimal-IsPlain n = digits_of-IsPlain (suc n) n [] tt

human_readable_evp-IsPlain : (evp : Bytes) → All IsPlain (human_readable_evp evp)
unfolding human_readable_evp
human_readable_evp-IsPlain [] = tt
human_readable_evp-IsPlain (b ∷ evp) =
    (ground arith, (ground arith, human_readable_evp-IsPlain evp))

-- A text of plain bytes.
pub record IsText (s : Bytes) : Type 0 where
  pub plain : All IsPlain s

pub append-IsText : {s t : Bytes} → IsText s → IsText t → IsText (s ++ t)
append-IsText {s} {t} h k = record { plain = All-append IsPlain s t h.plain k.plain }

pub decimal-IsText : (n : ℕ) → IsText (decimal n)
decimal-IsText n = record { plain = decimal-IsPlain n }

pub human_readable_evp-IsText : (evp : Bytes) → IsText (human_readable_evp evp)
human_readable_evp-IsText evp = record { plain = human_readable_evp-IsPlain evp }

-- ===== src/Directory/Names.antt =====
-- The entries that `Readdir` makes of the files of a listing.
use xrootd_hdfs.Base.{
  ℕ, zero, suc, pos, Bool, true, false, none, some, List, [], ◌∷◌, ◌++◌, Bytes, map, take, ◌-◌,
  ◌==◌, ◌⊎◌, ◌≢◌, inl, inr, ltb, Bool-cases, ◌≡◌, refl, ap, arith, if◌then◌else◌,
}
use xrootd_hdfs.Text.{NoSlash}
use xrootd_hdfs.Env.{FileInfo}
use xrootd_hdfs.Sys.{stat_of}
use xrootd_hdfs.Directory.{Entry, plain, from_last_slash, strlcpy}

-- What `Readdir` makes of one file.
abbrev pub listed : Bool → ℕ → FileInfo → Entry
listed stat_buf blen info = record {
  code = pos 0;
  name = strlcpy (from_last_slash info.name) blen;
  status = if stat_buf then some (stat_of info) else none;
}

-- The last part of a path: its last slash and what follows, or nothing if it has no slash.
abbrev pub IsLastPart : Bytes → Bytes → Type 0
IsLastPart path part =
    ((dir : Bytes) × (base : Bytes) × (path ≡ dir ++ b'/' ∷ base)
      × NoSlash base
      × (part ≡ b'/' ∷ base))
    ⊎ (NoSlash path × (part ≡ []))

-- What a client is told of one file: code 0; the last part of its name, as far as it fits a buffer of
-- `blen` bytes with a NUL; and its status, if it gave a buffer for that.
abbrev pub Lists : Bool → ℕ → FileInfo → Entry → Type 0
Lists stat_buf blen info entry =
    (entry.code ≡ pos 0)
    × ((part : Bytes) × IsLastPart info.name part
        × (entry.name ≡ (if ltb 0 blen then some (take (blen - 1) part) else none)))
    × (entry.status ≡ (if stat_buf then some (stat_of info) else none))

-- One entry for each file, in order.
abbrev pub ListsAll : Bool → ℕ → List FileInfo → List Entry → Type 0
ListsAll stat_buf blen [] [] = Unit {0}
ListsAll stat_buf blen [] (entry ∷ entries) = ⊥
ListsAll stat_buf blen (info ∷ infos) [] = ⊥
ListsAll stat_buf blen (info ∷ infos) (entry ∷ entries) =
    Lists stat_buf blen info entry × ListsAll stat_buf blen infos entries

from_last_slash_lem : (path : Bytes) → IsLastPart path (from_last_slash path)
unfolding from_last_slash
from_last_slash_lem [] = inr (tt, refl)
from_last_slash_lem (c ∷ path) = elim (from_last_slash_lem path) [
  | inl (dir, base, split, plain, part) ↦
      rw part (inl (c ∷ dir, base, ap (λ s. c ∷ s) split, plain, refl))
  | inr (plain, nothing) ↦ rw nothing (elim (Bool-cases (c == b'/')) [
    | inl slash ↦ rw slash (
        inl ([], path, ap (λ k. k ∷ path) (same c slash), plain, ap (λ k. k ∷ path) (same c slash)))
    | inr other ↦ rw other (inr ((differ c other, plain), refl))
  ])
]
  where
    same : (c : ℕ) → (c == b'/') ≡ true → c ≡ b'/'
    same c h = ground arith

    differ : (c : ℕ) → (c == b'/') ≡ false → c ≢ b'/'
    differ c h = ground arith

strlcpy_lem :
    (part : Bytes) (blen : ℕ)
    → strlcpy part blen ≡ (if ltb 0 blen then some (take (blen - 1) part) else none)
unfolding strlcpy
strlcpy_lem part zero = refl
strlcpy_lem part (suc n) =
    let room : ltb 0 (suc n) ≡ true = ground arith in
    let one : suc n - 1 ≡ n = omega arith in rw (room, one) refl

pub listed-ListsAll :
    (stat_buf : Bool) (blen : ℕ) (infos : List FileInfo)
    → ListsAll stat_buf blen infos (map (listed stat_buf blen) infos)
listed-ListsAll stat_buf blen [] = tt
listed-ListsAll stat_buf blen (info ∷ infos) = (
  (refl, (from_last_slash info.name, from_last_slash_lem info.name, strlcpy_lem _ blen), refl),
  listed-ListsAll stat_buf blen infos,
)

-- ===== src/Checksum/Manager/Lookup.antt =====
-- What `Get` finds in a checksum file that `SetMultiple` wrote.
use xrootd_hdfs.Base.{
  ℕ, ℤ, pos, neg, List, [], ◌∷◌, map, Bytes, Option, none, some, ◌≡◌, refl, ap, ◌∙◌, length, leb,
  arith, All, if◌then◌else◌,
}
use xrootd_hdfs.Env.{Env, External, esrch, edom}
use xrootd_hdfs.Text.{to_upper, to_lower, eq_ignoring_case}
use xrootd_hdfs.Checksum.Entries.{ChecksumValue, render, upper}
use xrootd_hdfs.Checksum.Entries.RoundTrip.{IsEntry, upper_entry, parse-render}
use xrootd_hdfs.Checksum.Manager.{find_value, get_from, put_value, del}
use xrootd_hdfs.Sys.{unlink}

to_lower-to_upper : (c : ℕ) → to_lower (to_upper c) ≡ to_lower c
to_lower-to_upper c = ground arith

-- `strcasecmp` does not see that a name was put in upper case.
pub eq_ignoring_case-upper : (a b : Bytes) → eq_ignoring_case (upper a) b ≡ eq_ignoring_case a b
unfolding upper
eq_ignoring_case-upper [] [] = refl
eq_ignoring_case-upper [] (c ∷ b) = refl
eq_ignoring_case-upper (d ∷ a) [] = refl
eq_ignoring_case-upper (d ∷ a) (c ∷ b) = rw (to_lower-to_upper d, eq_ignoring_case-upper a b) refl

-- The search finds the same value behind names that were put in upper case.
pub find_value-upper_entry :
    (requested : Bytes) (values : List ChecksumValue) (found : Bytes)
    → find_value requested (map upper_entry values) found ≡ find_value requested values found
unfolding find_value
find_value-upper_entry requested [] found = refl
find_value-upper_entry requested (v ∷ values) found =
    ap (λ b. find_value requested (map upper_entry values) (if b then v.second else found))
      (eq_ignoring_case-upper v.first requested)
    ∙ find_value-upper_entry requested values _

-- What a caller of `Get` gets for the value `v` that the checksum file has.
abbrev pub found_reply :
    {W : Type 0} → External W → ℕ → Bytes → Env W → Bytes → (ℤ × Option Bytes) × Env W
found_reply x valu_size pfn e [] = ((neg esrch, none), (unlink x pfn none e).1)
found_reply x valu_size pfn e (c ∷ v) =
    if leb (length (c ∷ v)) valu_size then ((pos 0, some (c ∷ v)), e) else ((neg edom, none), e)

put_value-found_reply :
    {W : Type 0} (x : External W) (valu_size : ℕ) (pfn v : Bytes) (e : Env W)
    → put_value x valu_size pfn v e ≡ found_reply x valu_size pfn e v
unfolding put_value del
put_value-found_reply x valu_size pfn [] e = refl
put_value-found_reply x valu_size pfn (c ∷ v) e = ground arith

-- `Get` of a file that holds what `SetMultiple` wrote for a list of checksums: the value of the last
-- entry with the requested name, in any case, if it fits the caller's record, else EDOM; and if no
-- entry has the name, ESRCH, after `Unlink` of the path whose checksum was asked for, which is the path
-- of the data file.
pub get_from-render :
    {W : Type 0} (x : External W) (valu_size : ℕ) (pfn requested : Bytes)
    (values : List ChecksumValue) (e : Env W)
    → All IsEntry values
    → get_from x valu_size pfn requested ((pos 0, render values), e)
      ≡ some (found_reply x valu_size pfn e (find_value requested values []))
unfolding get_from
get_from-render x valu_size pfn requested values e h =
    rw (parse-render values h, find_value-upper_entry requested values [], get_from)
      (ap some (put_value-found_reply x valu_size pfn (find_value requested values []) e))

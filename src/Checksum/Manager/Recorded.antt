-- ===== src/Checksum/Manager/Recorded.antt =====
-- From `Close` to `Get`: the checksum file that `Set(pfn, state)` writes gives each checksum back.
use xrootd_hdfs.Base.{
  ℕ, pos, List, [], ◌∷◌, map, Bytes, true, false, some, ◌≡◌, refl, ap, ◌∙◌, arith, All, Bool,
  Bool-cases, inl, inr,
}
use xrootd_hdfs.Env.{Env, External, codes}
use xrootd_hdfs.Text.{eq_ignoring_case}
use xrootd_hdfs.Text.Words.{IsPlain, IsText}
use xrootd_hdfs.Checksum.Entries.{ChecksumValue, parse, render, upper}
use xrootd_hdfs.Checksum.Entries.RoundTrip.{InWord, InName, IsEntry, upper_entry, parse-render}
use xrootd_hdfs.Checksum.State.{
  Digests, ChecksumState, md5_bit, cksum_bit, adler32_bit, cvmfs_bit, crc32_bit, get as state_get,
}
use xrootd_hdfs.Checksum.State.Words.{IsTextual, get-IsText, recorded, recorded-IsTextual}
use xrootd_hdfs.Checksum.Manager.{push_value, values_of, find_value, get_from}
use xrootd_hdfs.Checksum.Manager.Lookup.{found_reply, get_from-render}

text-InWord : (s : Bytes) → All IsPlain s → All InWord s
text-InWord [] h = tt
text-InWord (c ∷ s) h = (ground (arith, h.0), text-InWord s h.1)

push_value-IsEntry :
    (name text : Bytes) (values : List ChecksumValue)
    → All InName name
    → IsText text
    → All IsEntry values
    → All IsEntry (push_value name text values)
push_value-IsEntry name [] values n t h = h
push_value-IsEntry name (c ∷ text) values n t h =
    (record { name = n; value = text-InWord (c ∷ text) t.plain; some_value = λ e. cc }, h)

map-push_value :
    (name text : Bytes) (values : List ChecksumValue)
    → map upper_entry (push_value name text values)
      ≡ push_value (upper name) text (map upper_entry values)
map-push_value name [] values = refl
map-push_value name (c ∷ text) values = refl

-- The checksums that are recorded, by the name that a client asks for and by the bit.
pub data Recorded : Type 0 where
  cksum adler32 crc32 md5 cvmfs : Recorded

abbrev pub name_of : Recorded → Bytes
name_of cksum = codes "cksum"
name_of adler32 = codes "adler32"
name_of crc32 = codes "crc32"
name_of md5 = codes "md5"
name_of cvmfs = codes "cvmfs"

abbrev pub bit_of : Recorded → ℕ
bit_of cksum = cksum_bit
bit_of adler32 = adler32_bit
bit_of crc32 = crc32_bit
bit_of md5 = md5_bit
bit_of cvmfs = cvmfs_bit

-- The value behind an entry that is there only with a text.
abbrev chosen : Bool → Bytes → Bytes → Bytes
chosen false text found = found
chosen true [] found = found
chosen true (c ∷ text) found = c ∷ text

chosen-nil : (text : Bytes) → chosen true text [] ≡ text
chosen-nil [] = refl
chosen-nil (c ∷ text) = refl

find_value-push_value :
    (requested name text found : Bytes) (values : List ChecksumValue)
    → find_value requested (push_value name text values) found
      ≡ find_value requested values (chosen (eq_ignoring_case name requested) text found)
unfolding find_value
find_value-push_value requested name [] found values =
    elim (Bool-cases (eq_ignoring_case name requested)) [
      | inl same ↦ rw same refl
      | inr other ↦ rw other refl
    ]
find_value-push_value requested name (c ∷ text) found values =
    elim (Bool-cases (eq_ignoring_case name requested)) [
      | inl same ↦ rw (same, find_value) refl
      | inr other ↦ rw (other, find_value) refl
    ]

module _ {Ctx : Type 0} (s : ChecksumState Ctx) where
  -- The entries behind each of the five.
  abbrev from_cvmfs : List ChecksumValue
  from_cvmfs = push_value (codes "CVMFS") (state_get s cvmfs_bit) []

  abbrev from_md5 : List ChecksumValue
  from_md5 = push_value (codes "MD5") (state_get s md5_bit) from_cvmfs

  abbrev from_crc32 : List ChecksumValue
  from_crc32 = push_value (codes "CRC32") (state_get s crc32_bit) from_md5

  abbrev from_adler32 : List ChecksumValue
  from_adler32 = push_value (codes "ADLER32") (state_get s adler32_bit) from_crc32

  pub values_of-IsEntry : IsTextual s → All IsEntry (values_of s)
  unfolding values_of
  values_of-IsEntry h =
      push_value-IsEntry (codes "CKSUM") (state_get s cksum_bit) from_adler32 (ground arith)
        (get-IsText s cksum_bit h)
        (push_value-IsEntry (codes "ADLER32") (state_get s adler32_bit) from_crc32 (ground arith)
          (get-IsText s adler32_bit h)
          (push_value-IsEntry (codes "CRC32") (state_get s crc32_bit) from_md5 (ground arith)
            (get-IsText s crc32_bit h)
            (push_value-IsEntry (codes "MD5") (state_get s md5_bit) from_cvmfs (ground arith)
              (get-IsText s md5_bit h)
              (push_value-IsEntry (codes "CVMFS") (state_get s cvmfs_bit) [] (ground arith)
                (get-IsText s cvmfs_bit h) tt))))

  map-values_of : map upper_entry (values_of s) ≡ values_of s
  unfolding values_of upper
  map-values_of =
      map-push_value (codes "CKSUM") (state_get s cksum_bit) from_adler32
      ∙ ap (push_value (codes "CKSUM") (state_get s cksum_bit)) (
          map-push_value (codes "ADLER32") (state_get s adler32_bit) from_crc32
          ∙ ap (push_value (codes "ADLER32") (state_get s adler32_bit)) (
              map-push_value (codes "CRC32") (state_get s crc32_bit) from_md5
              ∙ ap (push_value (codes "CRC32") (state_get s crc32_bit)) (
                  map-push_value (codes "MD5") (state_get s md5_bit) from_cvmfs
                  ∙ ap (push_value (codes "MD5") (state_get s md5_bit))
                      (map-push_value (codes "CVMFS") (state_get s cvmfs_bit) []))))

  -- The search goes through the five entries.
  find_value-entries :
      (requested : Bytes)
      → let put = λ (name : Bytes) (bit : ℕ) (found : Bytes).
        chosen (eq_ignoring_case name requested) (state_get s bit) found in
        find_value requested (values_of s) []
        ≡ put (codes "CVMFS") cvmfs_bit (
            put (codes "MD5") md5_bit (
              put
                (codes "CRC32")
                crc32_bit
                (put (codes "ADLER32") adler32_bit (put (codes "CKSUM") cksum_bit []))))
  unfolding values_of find_value
  find_value-entries requested =
      find_value-push_value requested (codes "CKSUM") (state_get s cksum_bit) [] from_adler32
      ∙ find_value-push_value requested (codes "ADLER32") (state_get s adler32_bit) _ from_crc32
      ∙ find_value-push_value requested (codes "CRC32") (state_get s crc32_bit) _ from_md5
      ∙ find_value-push_value requested (codes "MD5") (state_get s md5_bit) _ from_cvmfs
      ∙ find_value-push_value requested (codes "CVMFS") (state_get s cvmfs_bit) _ []

  -- The search finds the text of the checksum that is asked for.
  pub find_value-values_of :
      (k : Recorded) → find_value (name_of k) (values_of s) [] ≡ state_get s (bit_of k)
  find_value-values_of cksum =
      find_value-entries (codes "cksum") ∙ chosen-nil (state_get s cksum_bit)
  find_value-values_of adler32 =
      find_value-entries (codes "adler32") ∙ chosen-nil (state_get s adler32_bit)
  find_value-values_of crc32 =
      find_value-entries (codes "crc32") ∙ chosen-nil (state_get s crc32_bit)
  find_value-values_of md5 = find_value-entries (codes "md5") ∙ chosen-nil (state_get s md5_bit)
  find_value-values_of cvmfs =
      find_value-entries (codes "cvmfs") ∙ chosen-nil (state_get s cvmfs_bit)

-- `Parse` reads back exactly the values that `Set(pfn, state)` writes for a finished checksum state:
-- with no error, all of them, in order and with their names, whatever digests were selected and
-- whatever was written to the file.
pub parse-values_of :
    {Ctx : Type 0} (d : Digests Ctx) (digests garbage : ℕ) (buffers : List Bytes)
    → let s = recorded d digests garbage buffers in
      parse (render (values_of s)) ≡ some (pos 0, values_of s)
parse-values_of d digests garbage buffers =
    let s = recorded d digests garbage buffers in
    parse-render (values_of s) (values_of-IsEntry s (recorded-IsTextual d digests garbage buffers))
    ∙ ap (λ values. some (pos 0, values)) (map-values_of s)

-- From `Close` to `Get`: of the file that `Set(pfn, state)` writes for a finished checksum state, `Get` of
-- any of the five checksums gives the text that the state has for it, if that fits the caller's record,
-- else EDOM; and if that text is empty, ESRCH behind `Unlink` of the path.
pub get_from-values_of :
    {W Ctx : Type 0} (x : External W) (d : Digests Ctx) (digests garbage : ℕ) (buffers : List Bytes)
    (k : Recorded) (valu_size : ℕ) (pfn : Bytes) (e : Env W)
    → let s = recorded d digests garbage buffers in
      get_from x valu_size pfn (name_of k) ((pos 0, render (values_of s)), e)
      ≡ some (found_reply x valu_size pfn e (state_get s (bit_of k)))
get_from-values_of x d digests garbage buffers k valu_size pfn e =
    let s = recorded d digests garbage buffers in
    get_from-render x valu_size pfn (name_of k) (values_of s) e
      (values_of-IsEntry s (recorded-IsTextual d digests garbage buffers))
    ∙ ap (λ v. some (found_reply x valu_size pfn e v)) (find_value-values_of s k)

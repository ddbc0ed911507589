-- ===== src/Checksum/Manager/Listing.antt =====
-- src/XrdHdfsChecksum.cc: `List`, `Name` and `Size` of `ChecksumManager`.
use xrootd_hdfs.Base.{
  ℕ, zero, suc, ℤ, pos, neg, List, [], ◌∷◌, ◌++◌, Bytes, Bool, true, false, Option, none, some,
  take, is_set, if◌then◌else◌,
}
use xrootd_hdfs.Env.{Env, External, codes}
use xrootd_hdfs.Text.{eq_ignoring_case}
use xrootd_hdfs.Checksum.Entries.{ChecksumValue, parse}
use xrootd_hdfs.Checksum.State.{Digests}
use xrootd_hdfs.Checksum.Manager.{get_file_contents}

-- The names, with the separator between them.
pub join_names : ℕ → List ChecksumValue → Bytes
join_names separator [] = []
join_names separator (v ∷ []) = v.first
join_names separator (v ∷ next ∷ values) =
    v.first ++ separator ∷ join_names separator (next ∷ values)

module _ {W Ctx : Type 0} (x : External W) (d : Digests Ctx) (garbage fuel : ℕ) where
  -- `List`: what it copies into `buff`, with no NUL behind it, or `none` for NULL.
  unfoldable pub list_checksums :
      ℕ → Bool → Option Bytes → ℕ → ℕ → Env W → Option (Option Bytes × Env W)
  unfolding join_names
  list_checksums depth loaded pfn blen separator e =
      elim (get_file_contents x d garbage fuel depth loaded pfn e) [
        | none ↦ none
        | some ((rc, contents), e') ↦ elim (is_set rc) [
          | true ↦ some (none, e')
          | false ↦ elim (parse contents) [
            | none ↦ none
            | some (bad, values) ↦ elim (is_set bad) [
              | true ↦ some (none, e')
              | false ↦ some (some (take blen (join_names separator values)), e')
            ]
          ]
        ]
      ]

pub name_at : ℕ → Option Bytes
name_at zero = some (codes "md5")
name_at (suc zero) = some (codes "adler32")
name_at (suc (suc zero)) = some (codes "cksum")
name_at (suc (suc (suc seq_num))) = none

pub size_of : Bytes → ℤ
size_of name =
    if eq_ignoring_case name (codes "md5")
    then pos 16
    else if eq_ignoring_case name (codes "adler32")
    then pos 5
    else if eq_ignoring_case name (codes "cksum")
    then pos 5
    else neg (pos 1)

-- `Init`: the code, and the new `m_default_digest`.
pub init : Option Bytes → Bytes → ℕ × Bytes
init none default = (1, default)
init (some default_checksum) default = (1, default_checksum)

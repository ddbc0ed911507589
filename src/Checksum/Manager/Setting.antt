-- ===== src/Checksum/Manager/Setting.antt =====
-- src/XrdHdfsChecksum.cc, `ChecksumManager::Set(pfn, cks)`: one checksum put in a checksum file.
pub mod Found
pub mod Written
use xrootd_hdfs.Base.{
  ℕ, ℤ, pos, List, [], ◌∷◌, ◌++◌, map, Bytes, Bool, true, false, Option, none, some, ◌&&◌, ◌==◌,
  ◌≡◌, refl, sym, ap, ap₂, ◌∙◌, inl, inr, arith, is_set, Bool-cases, if◌then◌else◌,
}
use xrootd_hdfs.Env.{Env, External}
use xrootd_hdfs.Plugin.{eq_bytes}
use xrootd_hdfs.Plugin.Connections.{eq_bytes_iff}
use xrootd_hdfs.Text.{eq_ignoring_case, to_upper, to_lower}
use xrootd_hdfs.Checksum.Entries.{ChecksumValue, parse, upper}
use xrootd_hdfs.Checksum.State.{Digests}
use xrootd_hdfs.Checksum.Manager.{find_value, get_file_contents, set_multiple}
use xrootd_hdfs.Checksum.Manager.Lookup.{eq_ignoring_case-upper}

-- What the loop of `Set` leaves: the entries, `overwrote_value` and `changed_value`.
pub record Replaced : Type 0 where
  pub values : List ChecksumValue
  pub overwrote : Bool
  pub changed : Bool

-- The loop: `checksum_name` is in upper case.
replace_loop : Bytes → Bytes → List ChecksumValue → Replaced
replace_loop checksum_name checksum_value [] = record {
  values = [];
  overwrote = false;
  changed = true;
}
replace_loop checksum_name checksum_value (v ∷ values) =
    let r = replace_loop checksum_name checksum_value values in
    if eq_bytes (upper v.first) checksum_name
    then (if eq_bytes v.second checksum_value
        then record { values = v ∷ r.values; overwrote = true; changed = false }
        else record {
          values = record v { second = checksum_value } ∷ r.values;
          overwrote = true;
          changed = r.changed;
        })
    else record r { values = v ∷ r.values }

-- The entries that `Set` writes, and whether it writes them.
pub set_value : Bytes → Bytes → List ChecksumValue → List ChecksumValue × Bool
unfolding replace_loop
set_value checksum_name checksum_value values =
    let r = replace_loop checksum_name checksum_value values in
    let added : ChecksumValue = record { first = checksum_name; second = checksum_value } in
    (if r.overwrote then r.values else r.values ++ added ∷ [], r.changed)

module _ {W Ctx : Type 0} (x : External W) (d : Digests Ctx) (garbage fuel : ℕ) where
  -- The end of `Set`.
  unfoldable pub write_changed :
      ℕ → Option Bytes → List ChecksumValue × Bool → Env W → Option (ℤ × Env W)
  write_changed depth pfn (values, true) e = set_multiple x d garbage fuel depth pfn values e
  write_changed depth pfn (values, false) e = some (pos 0, e)

  -- `Set(pfn, cks)`: `name` is `cks.Name`, and `checksum_value` the text that `cks.Get` gives.
  unfoldable pub set_cks : ℕ → Bool → Option Bytes → Bytes → Bytes → Env W → Option (ℤ × Env W)
  unfolding set_value write_changed
  set_cks depth loaded pfn name checksum_value e =
      elim (get_file_contents x d garbage fuel depth loaded pfn e) [
        | none ↦ none
        | some ((rc, contents), e') ↦ elim (is_set rc) [
          | true ↦ some (rc, e')
          | false ↦ elim (parse contents) [
            | none ↦ none
            | some (bad, values) ↦ elim (is_set bad) [
              | true ↦ some (bad, e')
              | false ↦ write_changed depth pfn (set_value (upper name) checksum_value values) e'
            ]
          ]
        ]
      ]

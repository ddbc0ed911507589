-- ===== src/Checksum/Manager/Calc.antt =====
-- src/XrdHdfsChecksumCalc.cc, `ChecksumManager::Calc`, and src/XrdHdfsChecksum.cc, `Ver`: the checksum of
-- a file is computed from its bytes, recorded, and compared.
pub mod Whole
pub mod Agrees
pub mod Opened
pub mod Tests
use xrootd_hdfs.Base.{
  ℕ, zero, suc, ℤ, pos, neg, ◌+◌, Option, none, some, List, [], ◌∷◌, Bytes, Bool, true, false,
  length, take, is_set, is_neg, eq_ℤ, bit_or, if◌then◌else◌,
}
use xrootd_hdfs.Env.{Env, External, codes, eintr, eio, enomem, enotsup, o_rdonly}
use xrootd_hdfs.Plugin.{eq_bytes}
use xrootd_hdfs.Text.{eq_ignoring_case}
use xrootd_hdfs.ReadAhead.{Done, Result, bytes, error}
use xrootd_hdfs.Checksum.State.{
  Digests, ChecksumState, md5_bit, cksum_bit, adler32_bit, crc32_bit, all_bits, create, update,
  finalize, get as state_get,
}
use xrootd_hdfs.File.{File, new_file, open_file, close, read_file}
use xrootd_hdfs.Checksum.Manager.{root_client, set_state, get}

-- `return_digest`, or `none` for a name that is not known.
unfoldable pub return_digest : Bytes → Option ℕ
return_digest name =
    if eq_ignoring_case name (codes "md5")
    then some md5_bit
    else if eq_ignoring_case name (codes "cksum")
    then some cksum_bit
    else if eq_ignoring_case name (codes "crc32")
    then some crc32_bit
    else if eq_ignoring_case name (codes "adler32")
    then some adler32_bit
    else none

-- `digests`.
abbrev pub digests_for : Bool → ℕ → ℕ
digests_for do_set bit = bit_or (if do_set then all_bits else 0) bit

-- The size of the buffer of `Calc`.
abbrev pub read_size : ℕ
read_size = 262144

-- The loop's last `retval`, the state of the checksums, and the file and the environment behind it.
pub record Computed (W Ctx : Type 0) : Type 0 where
  pub retval : ℤ
  pub state : ChecksumState Ctx
  pub file : File Ctx
  pub env : Env W

-- The end of `Calc`: the text that goes to `cks.Set`.
abbrev pub calc_value : Bytes → ℤ × Option Bytes
calc_value [] = (neg eio, none)
calc_value (c ∷ text) = (pos 0, some (c ∷ text))

module _ {W Ctx : Type 0} (d : Digests Ctx) where
  -- What the loop does with a block: `again` is the next round, and `stop` what the loop leaves.
  abbrev pub after_block :
      (ℕ → ChecksumState Ctx → Option (Computed W Ctx))
      → (ℤ → Computed W Ctx)
      → ℕ
      → ChecksumState Ctx
      → Result
      → Option (Computed W Ctx)
  after_block again stop offset s (bytes []) = some (stop (pos 0))
  after_block again stop offset s (bytes (c ∷ block)) =
      again (offset + length (c ∷ block)) (update d s (c ∷ block))
  after_block again stop offset s (error rc) = elim (eq_ℤ rc (neg eintr)) [
    | true ↦ again offset s
    | false ↦ some (stop rc)
  ]

module _ {W Ctx : Type 0} (x : External W) (d : Digests Ctx) (garbage fuel : ℕ) where
  -- The loop of `Calc`, with fuel for its rounds.
  unfoldable pub compute : ℕ → File Ctx → ℕ → ChecksumState Ctx → Env W → Option (Computed W Ctx)
  unfolding read_file
  compute zero f offset s e = none
  compute (suc rounds) f offset s e = elim (read_file x d fuel f offset read_size e) [
    | none ↦ none
    | some (r, f') ↦
        after_block d (λ offset' s'. compute rounds f' offset' s' r.env)
          (λ retval. record { retval = retval; state = s; file = f'; env = r.env }) offset s
          r.result
  ]

  -- `Calc` behind the loop and `Close`: `Set` records the checksums, and what it returns is not used.
  unfoldable pub finish_calc :
      ℕ → ℕ → Bytes → ℤ → ChecksumState Ctx → Env W → Option ((ℤ × Option Bytes) × Env W)
  unfolding set_state
  finish_calc depth bit pfn retval state e = elim (is_neg retval) [
    | true ↦ some ((neg eio, none), e)
    | false ↦
        let s = finalize d state in
        elim (set_state x d garbage fuel depth (some pfn) s e) [
          | none ↦ none
          | some (_, e') ↦ some (calc_value (state_get s bit), e')
        ]
  ]

  -- `Calc` for a digest, with `g_hdfs_oss` set.
  unfoldable pub calc_digest : ℕ → Bool → ℕ → Bytes → Env W → Option ((ℤ × Option Bytes) × Env W)
  unfolding compute open_file close create finish_calc set_state
  calc_digest depth do_set bit pfn e =
      let ((rc, f), e1) = open_file x d new_file pfn o_rdonly root_client garbage e in
      elim (is_set rc) [
        | true ↦ some ((rc, none), e1)
        | false ↦ elim (compute fuel f 0 (create d (digests_for do_set bit) garbage) e1) [
          | none ↦ none
          | some c ↦ elim (close x d (set_state x d garbage fuel depth) (c.file) (c.env)) [
            | none ↦ none
            | some (_, e2) ↦ finish_calc depth bit pfn c.retval c.state e2
          ]
        ]
      ]

  -- `Calc`: the code, and the text of the checksum.
  unfoldable pub calc :
      ℕ → Bool → Bool → Bytes → Bytes → Env W → Option ((ℤ × Option Bytes) × Env W)
  unfolding calc_digest
  calc depth loaded do_set name pfn e = elim (return_digest name) [
    | none ↦ some ((neg enotsup, none), e)
    | some bit ↦ if loaded then calc_digest depth do_set bit pfn e else some ((neg enomem, none), e)
  ]

  -- `memcmp(cks_on_disk.Value, cks.Value, cks.Length)`, with the bytes that `Set` stored.
  abbrev pub compare_value : (Option Bytes → Bytes) → Bytes → ℕ → Option Bytes → ℤ
  compare_value to_value wanted n text =
      if eq_bytes (take n (to_value text)) (take n wanted) then pos 0 else pos 1

  -- `Ver`: `on_disk` is the `Name` of the record `cks_on_disk`, `valu_size` its `ValuSize`, `to_value`
  -- what `XrdCksData::Set` makes of a text, and `wanted` and `n` are the value and the length to compare
  -- with.
  unfoldable pub ver :
      ℕ
      → Bool
      → ℕ
      → Bytes
      → Bytes
      → (Option Bytes → Bytes)
      → Bytes
      → ℕ
      → Bytes
      → Env W
      → Option (ℤ × Env W)
  unfolding calc
  ver depth loaded valu_size default on_disk to_value wanted n pfn e =
      elim (get x d garbage fuel depth loaded valu_size default (some on_disk) pfn e) [
        | none ↦ none
        | some ((rc, text), e1) ↦ elim (is_set rc) [
          | false ↦ some (compare_value to_value wanted n text, e1)
          | true ↦ elim (calc depth loaded true on_disk pfn e1) [
            | none ↦ none
            | some ((rc', text'), e2) ↦
                some (if is_set rc' then rc' else compare_value to_value wanted n text', e2)
          ]
        ]
      ]

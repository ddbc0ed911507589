-- ===== src/Checksum/Manager.antt =====
-- `ChecksumManager` of src/XrdHdfsChecksum.cc: the checksum file of a path, which is a file of the
-- plugin itself. Loops that retry EINTR take fuel, and so does the recursion of `Set` through `Close`;
-- `none` says that fuel ran out.
pub mod Lookup
pub mod Recorded
pub mod Setting
pub mod Listing
pub mod Contents
pub mod Reading
pub mod Writing
pub mod Objects
pub mod Saving
pub mod Nesting
pub mod Uploading
pub mod Handles
pub mod Calc
mod Tests
use xrootd_hdfs.Base.{
  ℕ, zero, suc, ℤ, pos, negsuc, neg, ◌+◌, ◌-◌, Bool, true, false, Option, none, some, List, [], ◌∷◌,
  ◌++◌, ◌&&◌, not, Bytes, length, drop, take, is_set, is_neg, is_pos, eq_ℤ, ltb, ◌==◌,
  if◌then◌else◌,
}
use xrootd_hdfs.Env.{
  Env, External, Client, codes, enoent, esrch, eintr, enomem, edom, o_rdonly, o_wronly,
}
use xrootd_hdfs.Plugin.{eq_bytes}
use xrootd_hdfs.Text.{eq_ignoring_case}
use xrootd_hdfs.ReadAhead.{Done, Result, bytes, error}
use xrootd_hdfs.Checksum.State.{
  Digests, ChecksumState, md5_bit, cksum_bit, adler32_bit, cvmfs_bit, crc32_bit, get as state_get,
}
use xrootd_hdfs.Checksum.Entries.{ChecksumValue, Parsed, until_nul, parse, render, upper}
use xrootd_hdfs.File.{File, new_file, open_file, write, close, read_file}
use xrootd_hdfs.Sys.{unlink}

-- `m_client`: root, with no attributes.
abbrev pub root_client : Client
root_client = record { sec = some (record { request_name = none; name = some (codes "root") }) }

pub get_checksum_filename : Option Bytes → Bytes
get_checksum_filename none = []
get_checksum_filename (some pfn) = codes "/cksums/" ++ pfn

-- `value.second = state.Get(…); if (value.second.size()) {values.push_back(value);}`.
abbrev push_value : Bytes → Bytes → List ChecksumValue → List ChecksumValue
push_value name [] values = values
push_value name (c ∷ text) values = record { first = name; second = c ∷ text } ∷ values

-- The values that `Set(pfn, state)` writes.
unfoldable pub values_of : {Ctx : Type 0} → ChecksumState Ctx → List ChecksumValue
values_of s = push_value (codes "CKSUM") (state_get s cksum_bit) (
    push_value (codes "ADLER32") (state_get s adler32_bit) (
      push_value (codes "CRC32") (state_get s crc32_bit) (
        push_value (codes "MD5") (state_get s md5_bit)
          (push_value (codes "CVMFS") (state_get s cvmfs_bit) []))))

-- A loop's last `retval`, the text so far, and the file and the state behind it.
pub record Loop (W Ctx : Type 0) : Type 0 where
  pub retval : ℤ
  pub text : Bytes
  pub file : File Ctx
  pub env : Env W

-- What the loop of `GetFileContents` does with a block, which is added up to its first NUL: `again` is the
-- next round, and `stop` what the loop leaves.
abbrev pub add_block :
    {W Ctx : Type 0}
    → (ℕ → Bytes → Option (Loop W Ctx))
    → (ℤ → Loop W Ctx)
    → ℕ
    → Bytes
    → Result
    → Option (Loop W Ctx)
add_block again stop offset text (bytes []) = some (stop (pos 0))
add_block again stop offset text (bytes (c ∷ s)) =
    again (offset + length (c ∷ s)) (text ++ until_nul (c ∷ s))
add_block again stop offset text (error rc) = elim (eq_ℤ rc (neg eintr)) [
  | true ↦ again offset text
  | false ↦ some (stop rc)
]

-- `offset += retval`, if `retval > 0`.
abbrev pub taken : ℤ → ℕ
taken (pos n) = n
taken (negsuc n) = 0

-- What the loop of `SetMultiple` does with the result of a write: an interrupted one is made again, and one
-- that took a part is followed by the next. What is left is the text of the loop's last state.
abbrev pub write_rest :
    {W Ctx : Type 0}
    → (ℕ → Bytes → Option (Loop W Ctx))
    → (Bytes → Loop W Ctx)
    → ℕ
    → Bytes
    → ℤ
    → Option (Loop W Ctx)
write_rest again stop offset rest retval = elim (eq_ℤ retval (neg eintr)) [
  | true ↦ again offset rest
  | false ↦ elim (is_pos retval && ltb (taken retval) (length rest)) [
    | true ↦ again (offset + taken retval) (drop (taken retval) rest)
    | false ↦ some (stop (drop (taken retval) rest))
  ]
]

module _ {W Ctx : Type 0} (x : External W) (d : Digests Ctx) (garbage fuel : ℕ) where
  -- The loop of `GetFileContents`.
  unfoldable pub read_contents : ℕ → File Ctx → ℕ → Bytes → Env W → Option (Loop W Ctx)
  unfolding read_file until_nul
  read_contents zero f offset text e = none
  read_contents (suc rounds) f offset text e = elim (read_file x d fuel f offset 4095 e) [
    | none ↦ none
    | some (r, f') ↦
        add_block (λ offset' text'. read_contents rounds f' offset' text' r.env)
          (λ retval. record { retval = retval; text = text; file = f'; env = r.env }) offset text
          r.result
  ]

  -- The loop of `SetMultiple`: `rest` is `result.c_str() + offset`.
  unfoldable pub write_contents : ℕ → File Ctx → ℕ → Bytes → Env W → Option (Loop W Ctx)
  unfolding write
  write_contents zero f offset rest e = none
  write_contents (suc rounds) f offset rest e =
      let ((retval, f'), e') = write x d f rest offset e in
      write_rest (λ offset' rest'. write_contents rounds f' offset' rest' e')
        (λ rest'. record { retval = retval; text = rest'; file = f'; env = e' }) offset rest retval

  -- `SetMultiple`: open, write, close. A failed open leaves at once.
  unfoldable pub set_multiple : ℕ → Option Bytes → List ChecksumValue → Env W → Option (ℤ × Env W)
  unfolding write_contents open_file close values_of get_checksum_filename render
  set_multiple zero pfn values e = none
  set_multiple (suc depth) pfn values e =
      let ((rc, f), e') =
        open_file x d new_file (get_checksum_filename pfn) o_wronly root_client garbage e in
      let set = λ (name : Option Bytes) (s : ChecksumState Ctx) (e2 : Env W).
        set_multiple depth name (values_of s) e2 in
      elim (is_set rc) [
        | true ↦ some (rc, e')
        | false ↦ elim (write_contents fuel f 0 (render values) e') [
          | none ↦ none
          | some l ↦ elim (close x d set (l.file) (l.env)) [
            | none ↦ none
            | some (_, e2) ↦ some (if is_neg l.retval then l.retval else pos 0, e2)
          ]
        ]
      ]

  -- `Set(pfn, state)`.
  unfoldable pub set_state : ℕ → Option Bytes → ChecksumState Ctx → Env W → Option (ℤ × Env W)
  unfolding set_multiple
  set_state depth pfn s e = set_multiple depth pfn (values_of s) e

  -- `GetFileContents`: its code and the text, which is set only with code 0. `loaded` says that
  -- `g_hdfs_oss` is set.
  unfoldable pub get_file_contents : ℕ → Bool → Option Bytes → Env W → Option ((ℤ × Bytes) × Env W)
  unfolding read_contents open_file close get_checksum_filename set_state
  get_file_contents depth false pfn e = some ((neg enomem, []), e)
  get_file_contents depth true pfn e =
      let ((rc, f), e') =
        open_file x d new_file (get_checksum_filename pfn) o_rdonly root_client garbage e in
      elim (is_set rc) [
        | true ↦ some ((rc, []), e')
        | false ↦ elim (read_contents fuel f 0 [] e') [
          | none ↦ none
          | some l ↦ elim (close x d (set_state depth) (l.file) (l.env)) [
            | none ↦ none
            | some (_, e2) ↦ some (if is_neg l.retval then (l.retval, []) else (pos 0, l.text), e2)
          ]
        ]
      ]

-- The loop of `Get`: the last entry with the name wins.
pub find_value : Bytes → List ChecksumValue → Bytes → Bytes
find_value requested [] checksum_value = checksum_value
find_value requested (v ∷ values) checksum_value =
    find_value requested values
      (if eq_ignoring_case v.first requested then v.second else checksum_value)

-- `requested_checksum`: the name in the record, the manager's default, or adler32.
pub requested_name : Option Bytes → Bytes → Bytes
requested_name name default = or_adler32 (elim name [ some n ↦ n | none ↦ default ])
  where
    or_adler32 : Bytes → Bytes
    or_adler32 [] = codes "adler32"
    or_adler32 (c ∷ s) = c ∷ s

module _ {W : Type 0} (x : External W) where
  -- `Del` removes the path that it is given.
  unfoldable pub del : Bytes → Env W → ℤ × Env W
  unfolding unlink
  del pfn e = unlink x pfn none e

  -- The end of `Get`: the value that was found, or the ESRCH behind `Del`.
  pub put_value : ℕ → Bytes → Bytes → Env W → (ℤ × Option Bytes) × Env W
  unfolding del
  put_value valu_size pfn [] e = let (_, e') = del pfn e in ((neg esrch, none), e')
  put_value valu_size pfn (c ∷ text) e =
      if ltb valu_size (length (c ∷ text))
      then ((neg edom, none), e)
      else ((pos 0, some (c ∷ text)), e)

  -- `Get` behind `GetFileContents`: the code, and the text that goes to `cks.Set`. `valu_size` is
  -- `cks.ValuSize`.
  unfoldable pub get_from :
      ℕ → Bytes → Bytes → (ℤ × Bytes) × Env W → Option ((ℤ × Option Bytes) × Env W)
  unfolding parse find_value put_value
  get_from valu_size pfn requested ((rc, contents), e) = elim (is_set rc) [
    | true ↦ some ((if eq_ℤ rc (neg enoent) then neg esrch else rc, none), e)
    | false ↦ elim (parse contents) [
      | none ↦ none
      | some (bad, values) ↦ elim (is_set bad) [
        | true ↦ some ((neg esrch, none), e)
        | false ↦ some (put_value valu_size pfn (find_value requested values []) e)
      ]
    ]
  ]

module _ {W Ctx : Type 0} (x : External W) (d : Digests Ctx) (garbage fuel : ℕ) where
  -- `Get`.
  unfoldable pub get :
      ℕ → Bool → ℕ → Bytes → Option Bytes → Bytes → Env W → Option ((ℤ × Option Bytes) × Env W)
  unfolding get_file_contents get_from requested_name
  get depth loaded valu_size default name pfn e =
      elim (get_file_contents x d garbage fuel depth loaded (some pfn) e) [
        | none ↦ none
        | some r ↦ get_from x valu_size pfn (requested_name name default) r
      ]

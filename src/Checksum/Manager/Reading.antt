-- ===== src/Checksum/Manager/Reading.antt =====
-- `Get` from the checksum file that `SetMultiple` wrote, all calls included.
use xrootd_hdfs.Base.{
  ℕ, ℤ, pos, ◌+◌, ◌^◌, ◌<◌, Option, some, List, [], Bytes, true, false, length, is_neg, is_set, ◌≡◌,
  refl, ap, ◌∙◌, arith, All, if◌then◌else◌,
}
use xrootd_hdfs.Env.{Env, External, o_rdonly}
use xrootd_hdfs.ReadAhead.Fill.{Serves}
use xrootd_hdfs.ReadAhead.Reliable.{Reliable}
use xrootd_hdfs.ReadAhead.Spending.{Interrupts}
use xrootd_hdfs.Checksum.State.{Digests}
use xrootd_hdfs.Checksum.Entries.{ChecksumValue, render}
use xrootd_hdfs.Checksum.Entries.RoundTrip.{IsEntry, render-NonNul}
use xrootd_hdfs.File.{File, new_file, open_file, close}
use xrootd_hdfs.File.Opening.{open_file-IsValid, state-open_file, close_reader}
use xrootd_hdfs.Checksum.Manager.{
  Loop, root_client, get_checksum_filename, read_contents, set_state, get_file_contents,
  requested_name, find_value, get,
}
use xrootd_hdfs.Checksum.Manager.Lookup.{found_reply, get_from-render}
use xrootd_hdfs.Checksum.Manager.Contents.{NonNul, read_contents_lem}

module _ {W Ctx : Type 0} (x : External W) (d : Digests Ctx) (garbage fuel : ℕ) where
  -- The result of `GetFileContents` for a loop that ended.
  contents_of : Loop W Ctx → ℤ × Bytes
  contents_of l = if is_neg l.retval then (l.retval, []) else (pos 0, l.text)

  get_file_contents-run :
      (depth : ℕ) (pfn : Option Bytes) (e : Env W) (l : Loop W Ctx)
      (closed : (ℤ × File Ctx) × Env W)
      → let r = open_file x d new_file (get_checksum_filename pfn) o_rdonly root_client garbage e in
        is_set r.0.0 ≡ false
        → read_contents x d garbage fuel fuel r.0.1 0 [] r.1 ≡ some l
        → close x d (set_state x d garbage fuel depth) l.file l.env ≡ some closed
        → get_file_contents x d garbage fuel depth true pfn e ≡ some (contents_of l, closed.1)
  unfolding get_file_contents contents_of
  get_file_contents-run depth pfn e l closed opened p q =
      rw (opened, get_file_contents, p, get_file_contents, q, get_file_contents) refl

  contents_of-all :
      (l : Loop W Ctx) (file : Bytes)
      → l.retval ≡ pos 0
      → l.text ≡ file
      → contents_of l ≡ (pos 0, file)
  unfolding contents_of
  contents_of-all l file code all =
      let fine : is_neg l.retval ≡ false = ap is_neg code in
      rw fine (ap (λ (t : Bytes). (pos 0, t)) all)

  -- `GetFileContents` ends with code 0 and the whole file, which has no NUL, if the file can be opened
  -- and no read of it fails but by an interruption. Fuel is given for the read-ahead buffer, each byte of
  -- the file and each interruption.
  pub get_file_contents_lem :
      (depth : ℕ) (pfn : Option Bytes) (e : Env W) (file : Bytes) (budget : W → ℕ)
      → let r = open_file x d new_file (get_checksum_filename pfn) o_rdonly root_client garbage e in
        is_set r.0.0 ≡ false
        → Serves x r.0.1.fs r.0.1.fh file budget
        → Interrupts x r.0.1.fs r.0.1.fh budget
        → Reliable x r.0.1.fs r.0.1.fh
        → NonNul file
        → length file < 2 ^ 63
        → 32768 + length file + budget r.1.world < fuel
        → (e' : Env W) × (get_file_contents x d garbage fuel depth true pfn e
            ≡ some ((pos 0, file), e'))
  get_file_contents_lem depth pfn e file budget opened sv it rel plain small enough =
      let name = get_checksum_filename pfn in
      let r = open_file x d new_file name o_rdonly root_client garbage e in
      let valid =
        open_file-IsValid x d file new_file name o_rdonly root_client garbage e refl
          (record { allocated = refl; small = omega arith }) in
      let (l, p, c) =
        read_contents_lem x d garbage fuel file budget plain small fuel r.0.1 0 [] r.1 sv it rel
          valid (omega (arith, valid.small)) (omega arith) (omega arith) in
      let (closed, q) =
        close_reader x d (set_state x d garbage fuel depth) l.file l.env
          (c.state ∙ state-open_file x d name root_client garbage e) in
      (
        closed.1,
        get_file_contents-run depth pfn e l closed opened p q
            ∙ ap (λ (r : ℤ × Bytes). some (r, closed.1)) (contents_of-all l file c.code c.all),
      )

  -- `Get`, from `Open` of the checksum file to its reply: if the file can be opened, holds what
  -- `SetMultiple` writes for a list of checksums, and no read of it fails but by an interruption, then
  -- `Get` ends with the reply for the last entry with the requested name. Fuel is given for the read-ahead
  -- buffer, each byte of the file and each interruption.
  pub get-found_reply :
      (depth valu_size : ℕ) (default pfn : Bytes) (name : Option Bytes) (e : Env W)
      (values : List ChecksumValue) (budget : W → ℕ)
      → let r =
          open_file x d new_file
            (get_checksum_filename (some pfn))
            o_rdonly
            root_client
            garbage
            e in
        is_set r.0.0 ≡ false
        → Serves x r.0.1.fs r.0.1.fh (render values) budget
        → Interrupts x r.0.1.fs r.0.1.fh budget
        → Reliable x r.0.1.fs r.0.1.fh
        → All IsEntry values
        → length (render values) < 2 ^ 63
        → 32768 + length (render values) + budget r.1.world < fuel
        → (e' : Env W) × (get x d garbage fuel depth true valu_size default name pfn e
            ≡ some (
                found_reply x valu_size pfn e'
                  (find_value (requested_name name default) values [])))
  unfolding get
  get-found_reply depth valu_size default pfn name e values budget opened sv it rel entries small
        enough =
      let (e', p) =
        get_file_contents_lem depth (some pfn) e (render values) budget opened sv it rel
          (render-NonNul values entries) small enough in
      (
        e',
        rw (p, get)
            (get_from-render x valu_size pfn (requested_name name default) values e' entries),
      )

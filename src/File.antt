-- ===== src/File.antt =====
-- src/XrdHdfs.cc, `XrdHdfsFile`: an open file. `Read` is in ReadAhead.antt. `Close` hands the checksums
-- to the checksum manager, which opens a file of its own: it is an argument here, and
-- Checksum/Manager.antt ties the knot.
pub mod Writes
pub mod Opening
pub mod Recording
pub mod Mapped
pub mod Kept
pub mod Ending
pub mod Handles
pub mod Soundness
pub mod Lifecycle
mod Tests
use xrootd_hdfs.Base.{
  ℕ, zero, suc, ℤ, pos, negsuc, neg, ◌+◌, Bool, true, false, Option, none, some, [], ◌∷◌, ◌&&◌, not,
  bit_and, bit_or, Bytes, take, is_set, is_neg, ◌==◌, if◌then◌else◌,
}
use xrootd_hdfs.Env.{
  Env, M, External, Client, FileInfo, Kind, file, directory, pure, ◌>>=◌, call, get_errno,
  unless_null, branch, codes, einval, eio, enoent, eexist, eisdir, enotsup, o_rdonly, o_wronly,
  o_rdwr, o_trunc,
}
use xrootd_hdfs.Plugin.{emsg, connect_client, get_real_path, eq_bytes}
use xrootd_hdfs.ReadAhead.{ReadBuf, Done, read}
use xrootd_hdfs.Checksum.State.{Digests, ChecksumState, create, update, finalize, all_bits}
use xrootd_hdfs.Sys.{Stat, stat_of}

pub record File (Ctx : Type 0) : Type 0 where
  pub fs : Option ℕ
  pub fh : Option ℕ
  pub fname : Option Bytes
  pub nextoff : ℕ
  pub buf : ReadBuf
  pub state : Option (ChecksumState Ctx)

-- The memory that `malloc` gives for the read-ahead buffer. What it holds is not read before the buffer
-- is filled.
zeros : ℕ → Bytes
zeros zero = []
zeros (suc n) = 0 ∷ zeros n

abbrev pub readbuf_bytes : ℕ
readbuf_bytes = 32768

pub fresh_memory : Bytes
unfolding zeros
fresh_memory = zeros readbuf_bytes

-- The buffer of a new object, and after `Close`.
abbrev pub no_buffer : ReadBuf
no_buffer = record {
  mem = none;
  size = 0;
  offset = 0;
  len = 0;
  bypassed = 0;
  misses = 0;
  hits = 0;
  partial_hits = 0;
  bytes_used = 0;
  bytes_loaded = 0;
}

-- `XrdHdfsFile::XrdHdfsFile`.
abbrev pub new_file : {Ctx : Type 0} → File Ctx
new_file = record { fs = none; fh = none; fname = none; nextoff = 0; buf = no_buffer; state = none }

-- The flag for `hdfsOpenFile`: `O_RDWR` is opened for writing only, and `O_TRUNC` too.
pub open_flag : ℕ → ℕ
open_flag mode =
    if not (bit_and mode o_trunc == 0)
    then bit_or o_trunc o_wronly
    else if bit_and mode 3 == o_wronly
    then o_wronly
    else if bit_and mode 3 == o_rdwr
    then o_wronly
    else o_rdonly

-- `strncmp("/cksums", fname, 7) == 0`.
unfoldable pub is_cksums : Option Bytes → Bool
is_cksums none = false
is_cksums (some fname) = eq_bytes (take 7 fname) (codes "/cksums")

-- The code for a failed open, from what `hdfsGetPathInfo` says of the name.
pub open_error : Option FileInfo → ℤ
open_error none = neg enoent
open_error (some info) = elim info.kind [ directory ↦ neg eisdir | file ↦ neg eexist ]

-- `if (result >= 0) {m_nextoff += result;}`.
unfoldable pub advance : ℕ → ℤ → ℕ
advance nextoff (pos n) = nextoff + n
advance nextoff (negsuc n) = nextoff

unfoldable pub fed :
    {Ctx : Type 0} → Digests Ctx → Option (ChecksumState Ctx) → Bytes → Option (ChecksumState Ctx)
fed d none buff = none
fed d (some s) buff = some (update d s buff)

module _ {W Ctx : Type 0} (x : External W) (d : Digests Ctx) where
  -- The buffer with its contents invalidated, and allocated if it was not. A failed allocation
  -- leaves it without memory.
  pub allocate : ReadBuf → M W ReadBuf
  allocate b e = elim b.mem [
    | some m ↦ (record no_buffer { mem = some m; size = b.size }, e)
    | none ↦
        let (ok, e') = call (x.alloc readbuf_bytes) e in
        (
          if ok
              then record no_buffer { mem = some fresh_memory; size = readbuf_bytes }
              else no_buffer,
          e',
        )
  ]

  -- `hdfsOpenFile` and what follows it, on a connected object.
  open_connected : File Ctx → ℕ → ℕ → ℕ → M W (ℤ × File Ctx)
  unfolding open_error is_cksums create
  open_connected f flag fs garbage = do
    fh ← call (x.open_file fs f.fname flag)
    unless_null fh (do info ← call (x.path_info (some fs) f.fname); pure (open_error info, f))
        λ h. pure (
          pos 0,
          record f {
            fh = some h;
            state =
                if not (bit_and flag o_wronly == 0) && not (is_cksums f.fname)
                then some (create d all_bits garbage)
                else f.state;
          },
        )

  -- `Open`. `garbage` is what the memory of a new `ChecksumState` holds.
  unfoldable pub open_file : File Ctx → Bytes → ℕ → Client → ℕ → M W (ℤ × File Ctx)
  unfolding allocate open_connected open_flag emsg
  open_file f path mode client garbage = unless_null f.fh opening λ _. pure (neg einval, f)
    where
      opening : M W (ℤ × File Ctx)
      opening = do
        fname ← get_real_path x path
        b ← allocate f.buf
        fs ← connect_client x (some client)
        let named = record f { fs = fs; fname = fname; buf = b }
        unless_null fs (do rc ← emsg eio; pure (rc, named))
            λ s. open_connected named (open_flag mode) s garbage

  -- `Write`: the checksums take the whole buffer, whatever `hdfsWrite` returns.
  unfoldable pub write : File Ctx → Bytes → ℕ → M W (ℤ × File Ctx)
  unfolding emsg advance fed
  write f buff offset =
      branch (not (offset == f.nextoff)) (do rc ← emsg enotsup; pure (rc, f))
        (do
          result ← call (x.write f.fs f.fh buff)
          pure
              (result, record f { nextoff = advance f.nextoff result; state = fed d f.state buff }))

  -- `Fstat`: the code, and what is put in the caller's buffer.
  unfoldable pub fstat : File Ctx → M W (ℤ × Option Stat)
  unfolding emsg stat_of
  fstat f = do
    info ← call (x.path_info f.fs f.fname)
    unless_null info (do n ← get_errno; rc ← emsg n; pure (rc, none))
        λ i. pure (pos 0, some (stat_of i))

  -- The part of `Close` on the open handle.
  unfoldable pub close_handle : File Ctx → M W ℤ
  unfolding emsg
  close_handle f = unless_null f.fh (pure (pos 0)) λ h. do
    rc ← call (x.close_file f.fs h)
    branch (is_set rc) (do n ← get_errno; emsg n) (pure (pos 0))

  -- `Close`. `set` is `ChecksumManager::Set(fname, state)`, whose result is not used; it may run out of
  -- fuel, and then so does `Close`.
  unfoldable pub close :
      (Option Bytes → ChecksumState Ctx → Env W → Option (ℤ × Env W))
      → File Ctx
      → Env W
      → Option ((ℤ × File Ctx) × Env W)
  unfolding close_handle finalize
  close set f e =
      let (ret, e') = close_handle f e in
      let closed = record f { fh = none; fname = none; buf = freed; state = none } in
      elim f.state [
        | none ↦ some ((ret, closed), e')
        | some s ↦ elim (is_set ret) [
          | true ↦ some ((ret, closed), e')
          | false ↦ elim (set f.fname (finalize d s) e') [
            | none ↦ none
            | some (_, e2) ↦ some ((ret, closed), e2)
          ]
        ]
      ]
    where
      freed : ReadBuf
      freed = elim f.buf.mem [
        | some _ ↦ record (f.buf) { mem = none; size = 0; offset = 0; len = 0 }
        | none ↦ f.buf
      ]

  -- `Read`, on the object.
  unfoldable pub read_file : ℕ → File Ctx → ℕ → ℕ → Env W → Option (Done W × File Ctx)
  read_file fuel f offset blen e = elim (read x f.fs f.fh fuel f.buf offset blen e) [
    | none ↦ none
    | some r ↦ some (r, record f { buf = r.buf })
  ]

-- ===== src/Sys.antt =====
-- src/XrdHdfs.cc, `XrdHdfsSys`: the operations on names. Each returns 0 or a negative code; `goto
-- cleanup` is a return, since what is cleaned up is memory.
pub mod Handles
pub mod Namespace
pub mod Renaming
pub mod Mkdir
mod Tests
use xrootd_hdfs.Base.{
  ℕ, zero, suc, ℤ, pos, negsuc, Bool, true, false, Option, none, some, [], ◌∷◌, ◌++◌, bit_or, Bytes,
  eq_ℤ, is_set, ◌==◌, if◌then◌else◌, length, ltb, ◌&&◌, not,
}
use xrootd_hdfs.Env.{
  Env, M, External, Client, FileInfo, Kind, file, directory, pure, ◌>>=◌, ◌>>◌, call, get_errno,
  set_errno, unless_null, branch, codes, enoent, eio, enomem, o_wronly,
}
use xrootd_hdfs.Plugin.{
  emsg, errno_or, connect_user, connect_client, get_real_path, with_connection,
}

-- The fields of `struct stat` that the plugin sets.
pub record Stat : Type 0 where
  pub st_mode : ℕ
  pub st_nlink : ℕ
  pub st_uid : ℕ
  pub st_gid : ℕ
  pub st_size : ℕ
  pub st_mtime : ℤ
  pub st_atime : ℤ
  pub st_ctime : ℤ
  pub st_dev : ℕ
  pub st_ino : ℕ

abbrev pub s_ifdir : ℕ
s_ifdir = 0o040000

abbrev pub s_ifreg : ℕ
s_ifreg = 0o100000

-- From `hdfsFileInfo` to `struct stat`, as `Stat`, `Fstat` and `Readdir` write it out.
unfoldable pub stat_of : FileInfo → Stat
stat_of info = of_kind info.kind
  where
    of_kind : Kind → Stat
    of_kind directory = record {
      st_mode = bit_or info.permissions s_ifdir;
      st_nlink = 0;
      st_uid = 1;
      st_gid = 1;
      st_size = 4096;
      st_mtime = info.last_mod;
      st_atime = info.last_mod;
      st_ctime = info.last_mod;
      st_dev = 0;
      st_ino = 1;
    }
    of_kind file = record {
      st_mode = bit_or info.permissions s_ifreg;
      st_nlink = 1;
      st_uid = 1;
      st_gid = 1;
      st_size = info.size;
      st_mtime = info.last_mod;
      st_atime = info.last_mod;
      st_ctime = info.last_mod;
      st_dev = 0;
      st_ino = 1;
    }

-- `if (-1 == op(…)) { retc = Emsg(…, errno ? errno : EIO, …); goto cleanup; }` behind `errno = 0`, at
-- the end of an operation.
abbrev pub checked : {W : Type 0} → M W ℤ → M W ℤ
checked op = do
  set_errno (pos 0)
  rc ← op
  branch (eq_ℤ rc (negsuc 0)) (do c ← errno_or eio; emsg c) (pure (pos 0))

module _ {W : Type 0} (x : External W) where
  unfoldable pub chmod : Bytes → ℕ → Option Client → M W ℤ
  unfolding with_connection
  chmod req_fname mode envp =
      with_connection x req_fname envp λ fs fname. checked (call (x.chmod fs fname mode))

  unfoldable pub remdir : Bytes → Option Client → M W ℤ
  unfolding with_connection
  remdir req_path envp =
      with_connection x req_path envp λ fs path. checked (call (x.delete fs path))

  unfoldable pub rename : Bytes → Bytes → Option Client → M W ℤ
  unfolding emsg
  rename req_src req_dest envp_src = do
    src ← get_real_path x req_src
    unless_null src (emsg enomem) λ s. do
      dest ← get_real_path x req_dest
      unless_null dest (emsg enomem) λ d. do
        fs ← connect_client x envp_src
        unless_null fs (emsg eio) λ f. checked (call (x.rename f s d))

  -- The file is opened for writing and closed; the new size is not used.
  unfoldable pub truncate : Bytes → ℕ → Option Client → M W ℤ
  unfolding with_connection
  truncate req_path newsize envp = with_connection x req_path envp λ fs path. do
    set_errno (pos 0)
    fp ← call (x.open_file fs (some path) o_wronly)
    unless_null fp (do n ← get_errno; emsg n)
        λ f. do _ ← call (x.close_file (some fs) f); pure (pos 0)

  -- After EIO from `hdfsDelete` a missing file is told from other failures by `hdfsExists`.
  pub explain : ℕ → Bytes → M W (Unit {0})
  explain fs path = do
    n ← get_errno
    branch (eq_ℤ n eio)
        (do
          set_errno (pos 0)
          rc ← call (x.exists fs path)
          branch (eq_ℤ rc (negsuc 0))
              (do m ← get_errno; branch (is_set m) (pure tt) (set_errno enoent)) (pure tt))
        (pure tt)

  unfoldable pub unlink : Bytes → Option Client → M W ℤ
  unfolding with_connection explain
  unlink req_path envp = with_connection x req_path envp λ fs path. do
    set_errno (pos 0)
    rc ← call (x.delete fs path)
    branch (eq_ℤ rc (negsuc 0)) (do explain fs path; c ← errno_or eio; emsg c) (pure (pos 0))

  -- The file is closed on the way out, also if `hdfsChmod` fails.
  unfoldable pub create : Bytes → ℕ → Option Client → M W ℤ
  unfolding with_connection
  create req_path mode envp = with_connection x req_path envp λ fs path. do
    set_errno (pos 0)
    fp ← call (x.open_file fs (some path) o_wronly)
    unless_null fp (do n ← get_errno; emsg n)
        λ f. do
          rc ← call (x.chmod fs path mode)
          retc ← branch (eq_ℤ rc (negsuc 0)) (do c ← errno_or eio; emsg c) (pure (pos 0))
          _ ← call (x.close_file (some fs) f)
          pure retc

  -- The connection that `Stat` uses: the cmsd, which has no client, keeps one of its own as root.
  stat_connection : Option Client → M W (Option ℕ)
  stat_connection (some client) e = connect_client x (some client) e
  stat_connection none e = elim e.cmsd_fs [
    | some fs ↦ (some fs, e)
    | none ↦
        let (fs, e') = connect_user x (codes "default") 0 (codes "root") e in
        (fs, record e' { cmsd_fs = fs })
  ]

  -- A path for which there is no memory is reported, and the call goes on with a null path. The
  -- result is the code and what is put in the caller's buffer.
  unfoldable pub stat : Bytes → Option Client → M W (ℤ × Option Stat)
  unfolding stat_connection emsg stat_of
  stat path client = do
    fname ← get_real_path x path
    retc ← unless_null fname (emsg enomem) λ _. pure (pos 0)
    fs ← stat_connection client
    unless_null fs (do rc ← emsg eio; pure (rc, none))
        λ f. do
          info ← call (x.path_info (some f) fname)
          unless_null info (do n ← get_errno; rc ← emsg n; pure (rc, none))
              λ i. pure (retc, some (stat_of i))

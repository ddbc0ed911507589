-- ===== src/Sys/Mkdir.antt =====
-- `XrdHdfsSys::Mkdir`: since HDFS makes missing parents, the plugin checks the parent itself.
pub mod Paths
pub mod Parents
use xrootd_hdfs.Base.{
  ℕ, zero, suc, ℤ, pos, negsuc, ◌+◌, Bool, true, false, Option, none, some, [], ◌∷◌, Bytes, length,
  take, get_or, eq_ℤ, is_set, ◌==◌, ◌&&◌, not, if◌then◌else◌,
}
use xrootd_hdfs.Env.{
  Env, M, External, Client, FileInfo, pure, ◌>>=◌, ◌>>◌, call, set_errno, unless_null, branch, eio,
  enoent, enomem,
}
use xrootd_hdfs.Plugin.{emsg, errno_or, connect_client, get_real_path}
use xrootd_hdfs.Sys.{checked}

-- What the loop over trailing slashes finds: the root, the path without them, or, for an empty path,
-- an index that wraps round and lies outside the buffer.
pub data Stripped : Type 0 where
  root outside : Stripped
  path : Bytes → Stripped

-- `do { len--; … } while (path[len] == '\0')`, from `len` on; a slash is overwritten by a NUL.
unfoldable pub strip : ℕ → Bytes → Stripped
strip zero p = outside
strip (suc zero) p = root
strip (suc (suc n)) p =
    if get_or p (suc n) 0 == b'/' then strip (suc n) p else path (take (suc (suc n)) p)

-- `strrchr(path, '/')`, as an index.
unfoldable pub last_slash : Bytes → Option ℕ
last_slash [] = none
last_slash (c ∷ s) = elim (last_slash s) [
  | some i ↦ some (suc i)
  | none ↦ if c == b'/' then some 0 else none
]

-- The parent, up to and with its slash, if `parent_dir && (parent_dir != path)`.
unfoldable pub parent_of : Bytes → Option Bytes
unfolding last_slash
parent_of p = elim (last_slash p) [
  | none ↦ none
  | some zero ↦ none
  | some (suc i) ↦ some (take (suc (suc i)) p)
]

module _ {W : Type 0} (x : External W) where
  -- `MKDIR_PERFORM_CHMOD && mode`, a switch of the build that is off by default.
  set_mode : Bool → ℕ → ℕ → Bytes → M W ℤ
  set_mode perform_chmod mode fs p =
      branch (perform_chmod && not (mode == 0))
        (do
          set_errno (pos 0)
          info ← call (x.path_info (some fs) (some p))
          unless_null info (do c ← errno_or enoent; emsg c)
              λ i.
                branch (not (i.permissions == mode)) (checked (call (x.chmod fs p mode)))
                  (do set_errno (pos 0); pure (pos 0)))
        (pure (pos 0))

  make : Bool → ℕ → ℕ → Bytes → M W ℤ
  unfolding set_mode
  make perform_chmod mode fs p = do
    set_errno (pos 0)
    rc ← call (x.create_directory fs p)
    branch (eq_ℤ rc (negsuc 0)) (do c ← errno_or eio; emsg c) (set_mode perform_chmod mode fs p)

  -- The parent must exist, if the path names one.
  check_parent : ℕ → Bytes → M W ℤ → M W ℤ
  check_parent fs p go = unless_null (parent_of p) go λ parent. do
    set_errno (pos 0)
    retval ← call (x.exists fs parent)
    branch (is_set retval) (do c ← errno_or enoent; emsg c) go

  make_stripped : Bool → ℕ → ℕ → Stripped → M W (Option ℤ)
  unfolding check_parent make
  make_stripped perform_chmod mode fs root = pure (some (pos 0))
  make_stripped perform_chmod mode fs outside = pure none
  make_stripped perform_chmod mode fs (path p) = do
    retc ← check_parent fs p (make perform_chmod mode fs p)
    pure (some retc)

  -- `none` is an access outside the path's buffer.
  unfoldable pub mkdir : Bool → Bytes → ℕ → Bool → Option Client → M W (Option ℤ)
  unfolding make_stripped strip emsg
  mkdir perform_chmod req_path mode mkpath envp = do
    p ← get_real_path x req_path
    unless_null p (do retc ← emsg enomem; pure (some retc))
        λ real. do
          fs ← connect_client x envp
          unless_null fs (do retc ← emsg eio; pure (some retc))
              λ f.
                branch mkpath (do retc ← make perform_chmod mode f real; pure (some retc))
                  (make_stripped perform_chmod mode f (strip (length real) real))

-- ===== src/Sys/Namespace.antt =====
-- The operations on names succeed exactly when HDFS did what they asked of it.
use xrootd_hdfs.Base.{
  ℕ, ℤ, pos, negsuc, eq_ℤ, Bool, true, false, Option, none, some, ◌≡◌, ◌↔◌, ◌≢◌, refl, Bytes, arith,
}
use xrootd_hdfs.Env.{
  Env, M, External, Client, call, pure, unless_null, branch, get_errno, ◌>>=◌, ◌>>◌, eio, o_wronly,
}
use xrootd_hdfs.Plugin.{emsg, errno_or}
use xrootd_hdfs.Plugin.Errors.{emsg_neg, Reaches, with_connection_iff}
use xrootd_hdfs.Sys.{checked, chmod, remdir, truncate, unlink, explain, create}

-- The state in which an operation makes its call: behind `errno = 0`.
abbrev pub cleared : {W : Type 0} → Env W → Env W
cleared e = record e { errno = pos 0 }

pub failed_report : {W : Type 0} (c : ℤ) (e : Env W) → ¬ ((emsg c e).0 ≡ pos 0)
failed_report c e h = ground (arith, emsg_neg c e)

-- The end of an operation: an error report if the test says so.
reported_iff :
    {W : Type 0} (bad : Bool) (code : M W ℤ) (e : Env W)
    → ((branch bad (do c ← code; emsg c) (pure (pos 0)) e).0 ≡ pos 0) ↔ (bad ≡ false)
reported_iff true code e = (λ h. absurd (failed_report (code e).0 (code e).1 h), λ h. cc)
reported_iff false code e = (λ h. refl, λ h. refl)

pub checked_iff :
    {W : Type 0} (op : M W ℤ) (e : Env W)
    → ((checked op e).0 ≡ pos 0) ↔ (eq_ℤ (op (cleared e)).0 (negsuc 0) ≡ false)
checked_iff op e =
    reported_iff (eq_ℤ (op (cleared e)).0 (negsuc 0)) (errno_or eio) (op (cleared e)).1

module _ {W : Type 0} (x : External W) where
  -- `Chmod` returns 0 exactly when it got a path and a connection and `hdfsChmod` did not return -1.
  pub chmod_iff :
      (path : Bytes) (mode : ℕ) (client : Option Client) (e : Env W)
      → ((chmod x path mode client e).0 ≡ pos 0)
        ↔ Reaches x path client e
            (λ fs p e'. eq_ℤ (x.chmod fs p mode e'.world (pos 0)).0 (negsuc 0) ≡ false)
  unfolding chmod
  chmod_iff path mode client e =
      with_connection_iff x path client e _ _ λ fs p e'. checked_iff (call (x.chmod fs p mode)) e'

  -- `Remdir` returns 0 exactly when it got a path and a connection and `hdfsDelete` did not return -1.
  pub remdir_iff :
      (path : Bytes) (client : Option Client) (e : Env W)
      → ((remdir x path client e).0 ≡ pos 0)
        ↔ Reaches x path client e
            (λ fs p e'. eq_ℤ (x.delete fs p e'.world (pos 0)).0 (negsuc 0) ≡ false)
  unfolding remdir
  remdir_iff path client e =
      with_connection_iff x path client e _ _ λ fs p e'. checked_iff (call (x.delete fs p)) e'

  -- `Unlink` returns 0 exactly when it got a path and a connection and `hdfsDelete` did not return -1:
  -- looking for the reason of a failure never turns it into success.
  pub unlink_iff :
      (path : Bytes) (client : Option Client) (e : Env W)
      → ((unlink x path client e).0 ≡ pos 0)
        ↔ Reaches x path client e
            (λ fs p e'. eq_ℤ (x.delete fs p e'.world (pos 0)).0 (negsuc 0) ≡ false)
  unfolding unlink
  unlink_iff path client e = with_connection_iff x path client e _ _ λ fs p e'.
      reported_iff (eq_ℤ (x.delete fs p e'.world (pos 0)).0 (negsuc 0))
        (do explain x fs p; errno_or eio) (call (x.delete fs p) (cleared e')).1

  -- `Create` returns 0 exactly when it got a path and a connection, the file was opened for writing, and
  -- `hdfsChmod` did not return -1.
  pub create_iff :
      (path : Bytes) (mode : ℕ) (client : Option Client) (e : Env W)
      → ((create x path mode client e).0 ≡ pos 0)
        ↔ Reaches x path client e (λ fs p e'.
          let (fp, w, n) = x.open_file fs (some p) o_wronly e'.world (pos 0) in
          (fp ≢ none) × (eq_ℤ (x.chmod fs p mode w n).0 (negsuc 0) ≡ false))
  unfolding create
  create_iff path mode client e = with_connection_iff x path client e _ _ λ fs p e'.
      opened fs p (call (x.open_file fs (some p) o_wronly) (cleared e')).1
        (x.open_file fs (some p) o_wronly e'.world (pos 0)).0
    where
      opened :
          (fs : ℕ) (p : Bytes) (e : Env W) (fp : Option ℕ)
          → ((unless_null fp
                (do n ← get_errno; emsg n)
                (λ f. do
                  rc ← call (x.chmod fs p mode)
                  retc ← branch (eq_ℤ rc (negsuc 0)) (do c ← errno_or eio; emsg c) (pure (pos 0))
                  _ ← call (x.close_file (some fs) f)
                  pure retc)
                e).0
              ≡ pos 0)
            ↔ ((fp ≢ none) × (eq_ℤ (x.chmod fs p mode e.world e.errno).0 (negsuc 0) ≡ false))
      opened fs p e none = (λ h. absurd (failed_report e.errno e h), λ h. absurd (h.0 refl))
      opened fs p e (some f) =
          let r =
            reported_iff (eq_ℤ (x.chmod fs p mode e.world e.errno).0 (negsuc 0)) (errno_or eio)
              (call (x.chmod fs p mode) e).1 in
          (λ h. ((λ z. cc), r.0 h), λ h. r.1 h.1)

  -- `Truncate` returns 0 exactly when it got a path and a connection and the file was opened for
  -- writing: the size that was asked for has no part in it.
  pub truncate_iff :
      (path : Bytes) (newsize : ℕ) (client : Option Client) (e : Env W)
      → ((truncate x path newsize client e).0 ≡ pos 0)
        ↔ Reaches x path client e
            (λ fs p e'. (x.open_file fs (some p) o_wronly e'.world (pos 0)).0 ≢ none)
  unfolding truncate
  truncate_iff path newsize client e = with_connection_iff x path client e _ _ λ fs p e'.
      opened fs (call (x.open_file fs (some p) o_wronly) (cleared e')).1
        (x.open_file fs (some p) o_wronly e'.world (pos 0)).0
    where
      opened :
          (fs : ℕ) (e : Env W) (fp : Option ℕ)
          → ((unless_null fp
                (do n ← get_errno; emsg n)
                (λ f. do _ ← call (x.close_file (some fs) f); pure (pos 0))
                e).0
              ≡ pos 0)
            ↔ (fp ≢ none)
      opened fs e none = (λ h. absurd (failed_report e.errno e h), λ h. absurd (h refl))
      opened fs e (some f) = ((λ h z. cc), λ h. refl)

-- ===== src/Sys/Mkdir/Parents.antt =====
-- `Mkdir` where the parent of the path does not exist.
use xrootd_hdfs.Base.{
  ℕ, ◌<◌, Bool, true, false, Option, some, [], ◌∷◌, ◌++◌, Bytes, length, ◌≡◌, refl, ℤ, pos, is_set,
  is_neg,
}
use xrootd_hdfs.Env.{Env, External, Client}
use xrootd_hdfs.Plugin.Errors.{Connected, emsg_code_neg}
use xrootd_hdfs.Sys.Mkdir.{check_parent, make_stripped, mkdir}
use xrootd_hdfs.Text.{NoSlash}
use xrootd_hdfs.Sys.Mkdir.Paths.{slashes, strip-append, parent_of-append}

module _ {W : Type 0} (x : External W) (perform_chmod : Bool) (req_path : Bytes) (mode : ℕ)
    (client : Option Client) (e : Env W) where
  -- `Mkdir` without `mkpath`, with a connection, of a path that is a directory's, then a slash, a name with
  -- no slash and any number of slashes: if `hdfsExists` does not return 0 for the directory with its slash,
  -- then `Mkdir` gives a negative code, and leaves the world outside as `hdfsExists` left it, so it makes
  -- no directory.
  pub mkdir_missing_parent :
      {fs : ℕ} {e' : Env W} (dir base : Bytes) (n : ℕ)
      → Connected x req_path client e fs (dir ++ b'/' ∷ base ++ slashes n) e'
      → 0 < length dir
      → 0 < length base
      → NoSlash base
      → is_set (x.exists fs (dir ++ b'/' ∷ []) e'.world (pos 0)).0 ≡ true
      → let (rc, e2) = mkdir x perform_chmod req_path mode false client e in
        ((r : ℤ) × (rc ≡ some r) × (is_neg r ≡ true))
        × (e2.world ≡ (x.exists fs (dir ++ b'/' ∷ []) e'.world (pos 0)).1)
  unfolding mkdir
  mkdir_missing_parent dir base n c some_dir some_base plain missing =
      rw
        (
          c.translated,
          c.connected,
          strip-append dir base n plain some_base,
          make_stripped,
          check_parent,
          parent_of-append dir base some_dir plain,
          missing,
        )
        ((_, refl, emsg_code_neg _), refl)

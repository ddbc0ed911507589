-- ===== src/Sys/Tests.antt =====
-- Operations on one name, by a client with a name.
use xrootd_hdfs.Base.{
  ℕ, ℤ, pos, negsuc, eq_ℤ, is_neg, true, false, [], ◌∷◌, none, some, ◌≡◌, ◌≢◌, ◌↔◌, Bytes, refl,
  arith,
}
use xrootd_hdfs.Env.{Env, External, codes, o_wronly}
use xrootd_hdfs.Plugin.{get_real_path, connect_client, extract_auth_name}
use xrootd_hdfs.Plugin.Errors.{Reaches, Connected}
use xrootd_hdfs.Sys.Renaming.{Prepared, rename_iff}
use xrootd_hdfs.Sys.{rename, unlink, create, truncate}
use xrootd_hdfs.Sys.Namespace.{unlink_iff, create_iff, truncate_iff}
use xrootd_hdfs.Sys.Mkdir.{mkdir}
use xrootd_hdfs.Sys.Mkdir.Parents.{mkdir_missing_parent}
use xrootd_hdfs.Sample.{sample, env, client}

abbrev path : Bytes
path = codes "/data/greeting"

unlink_greeting : (unlink sample path client env).0 ≡ pos 0
unfolding unlink get_real_path connect_client
unlink_greeting = refl

unlink_iff_example :
    ((unlink sample path client env).0 ≡ pos 0)
    ↔ Reaches sample path client env
        (λ fs p e'. eq_ℤ (sample.delete fs p e'.world (pos 0)).0 (negsuc 0) ≡ false)
unlink_iff_example = unlink_iff sample path client env

create_iff_example :
    ((create sample path 0o640 client env).0 ≡ pos 0)
    ↔ Reaches sample path client env (λ fs p e'.
      let (fp, w, n) = sample.open_file fs (some p) o_wronly e'.world (pos 0) in
      (fp ≢ none) × (eq_ℤ (sample.chmod fs p 0o640 w n).0 (negsuc 0) ≡ false))
create_iff_example = create_iff sample path 0o640 client env

truncate_iff_example :
    ((truncate sample path 5 client env).0 ≡ pos 0)
    ↔ Reaches sample path client env
        (λ fs p e'. (sample.open_file fs (some p) o_wronly e'.world (pos 0)).0 ≢ none)
truncate_iff_example = truncate_iff sample path 5 client env

-- An HDFS where no path exists.
abbrev bare : External ℕ
bare = record sample { exists = λ fs name w e. (negsuc 0, w, pos 2) }

abbrev connected : Env ℕ
connected = record env { fs_map = (codes "alice", 7) ∷ [] }

bare-Connected : Connected bare (codes "/data/new/") client env 7 (codes "/data/new/") connected
unfolding get_real_path connect_client extract_auth_name
bare-Connected = record { between = env; translated = refl; connected = refl }

mkdir_missing_parent_example :
    let (rc, e2) = mkdir bare false (codes "/data/new/") 0o755 false client env in
    ((r : ℤ) × (rc ≡ some r) × (is_neg r ≡ true)) × (e2.world ≡ 2)
mkdir_missing_parent_example =
    mkdir_missing_parent bare false (codes "/data/new/") 0o755 client env (codes "/data")
      (codes "new") 1 bare-Connected (omega arith) (omega arith) (ground arith) refl

rename_iff_example : ((rename sample path (codes "/data/farewell") client env).0 ≡ pos 0) ↔ (
    (fs : ℕ) × (s : Bytes) × (d : Bytes) × (e' : Env ℕ) × Prepared sample path
      (codes "/data/farewell")
      client
      env
      fs
      s
      d
      e'
    × (eq_ℤ (sample.rename fs s d e'.world (pos 0)).0 (negsuc 0) ≡ false))
rename_iff_example = rename_iff sample path (codes "/data/farewell") client env

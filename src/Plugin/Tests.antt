-- ===== src/Plugin/Tests.antt =====
-- A first and a second connection of one user.
use xrootd_hdfs.Base.{pos, some, ◌++◌, ◌≡◌, refl}
use xrootd_hdfs.Env.{N2n, codes}
use xrootd_hdfs.Plugin.{connect_user, extract_auth_name}
use xrootd_hdfs.Plugin.Connections.{connect_user_again}
use xrootd_hdfs.Sample.{sample, env, client}

alice : extract_auth_name client ≡ codes "alice"
unfolding extract_auth_name
alice = refl

connected : (connect_user sample (codes "default") 0 (codes "alice") env).0 ≡ some 7
unfolding connect_user
connected = refl

connect_user_again_example :
    let e' = (connect_user sample (codes "default") 0 (codes "alice") env).1 in
    connect_user sample (codes "default") 0 (codes "alice") e' ≡ (some 7, e')
connect_user_again_example =
    connect_user_again sample (codes "default") 0 (codes "alice") env connected

-- A Name2Name object that puts a directory in front of each path.
abbrev prefixing : N2n
prefixing path blen = (pos 0, codes "/hdfs" ++ path)

-- ===== src/File/Handles/Life/Tests.antt =====
-- An object that is opened and written, and destroyed without `Close`.
use xrootd_hdfs.Base.{[], ℕ, ℤ, ◌+◌, Bytes, ◌≡◌}
use xrootd_hdfs.Env.{Env, codes, o_wronly}
use xrootd_hdfs.Plugin.Handles.{held}
use xrootd_hdfs.Checksum.Manager.{root_client}
use xrootd_hdfs.File.{File, new_file, open_file, write}
use xrootd_hdfs.File.Ending.{destroy}
use xrootd_hdfs.File.Handles.Life.{opens, writes, here, further, Calls-destroy}
use xrootd_hdfs.Sample.{counting, counting-Counts, digests, env}

abbrev opened : (ℤ × File Bytes) × Env ℕ
opened = open_file (counting []) digests new_file (codes "/data/a") o_wronly root_client 0 env

abbrev written : (ℤ × File Bytes) × Env ℕ
written = write (counting []) digests opened.0.1 (codes "hello") 0 opened.1

Calls-destroy_example :
    (written.1.world ≡ env.world + held written.0.1.fh)
    × ((destroy (counting []) written.0.1 written.1).1.world ≡ env.world)
Calls-destroy_example =
    Calls-destroy (counting []) digests (λ w. w) (counting-Counts [])
      (further (further here (opens new_file (codes "/data/a") o_wronly root_client 0 env))
        (writes opened.0.1 (codes "hello") 0 opened.1))

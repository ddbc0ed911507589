-- ===== src/Directory/Tests.antt =====
-- A directory with one entry, opened and read to its end.
use xrootd_hdfs.Base.{pos, true, false, none, some, [], ◌∷◌, ◌++◌, List, ◌≡◌, refl}
use xrootd_hdfs.Env.{codes}
use xrootd_hdfs.Plugin.{get_real_path, connect_client}
use xrootd_hdfs.Directory.{Directory, Entry, plain, opendir}
use xrootd_hdfs.Directory.Walk.{read_entries, at, read_entries_lem}
use xrootd_hdfs.Directory.Names.{ListsAll}
use xrootd_hdfs.Sample.{sample, sample_info, env}

abbrev opened : Directory
opened = record {
  dh = some (sample_info ∷ []);
  num_entries = 1;
  dir_pos = 0;
  fname = some (codes "/data");
  isopen = true;
  stat_buf = true;
}

open_data :
    (opendir sample
      (record opened { isopen = false })
      (codes "/data")
      (record { sec = none })
      env).0
    ≡ (pos 0, opened)
unfolding opendir get_real_path connect_client
open_data = refl

read_entries_lem_example :
    (entries : List Entry) × ListsAll true 20 (sample_info ∷ []) entries
    × (read_entries 2 opened 20 env ≡ some (entries ++ plain (pos 0) (some []) ∷ [], at opened 1))
read_entries_lem_example =
    read_entries_lem (sample_info ∷ []) (sample_info ∷ []) opened 20 env
      (record { isopen = refl; dh = refl; counted = refl }) refl refl

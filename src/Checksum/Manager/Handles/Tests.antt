-- ===== src/Checksum/Manager/Handles/Tests.antt =====
-- The checksum manager on a file system that counts its open files.
use xrootd_hdfs.Base.{ℕ, some, [], Bytes, true}
use xrootd_hdfs.Env.{External, codes}
use xrootd_hdfs.Plugin.Handles.{Balances}
use xrootd_hdfs.Checksum.Manager.{get}
use xrootd_hdfs.Checksum.Manager.Setting.{set_cks}
use xrootd_hdfs.Checksum.Manager.Listing.{list_checksums}
use xrootd_hdfs.Checksum.Manager.Calc.{calc, ver}
use xrootd_hdfs.Checksum.Manager.Handles.Computing.{manager-Balances}
use xrootd_hdfs.Sample.{counting, counting-Counts, digests, env}

abbrev counted : External ℕ
counted = counting (codes "ADLER32:1a2b3c4d\nMD5:00ff\n")

abbrev pfn : Bytes
pfn = codes "/data/greeting"

abbrev md5 : Bytes
md5 = codes "MD5"

-- The number of open files is 2 before and behind each operation.
manager-Balances_example :
    Balances (λ w. w) env (get counted digests 0 99 3 true 64 [] (some md5) pfn env)
    × Balances (λ w. w) env (set_cks counted digests 0 99 3 true (some pfn) md5 (codes "11ee") env)
    × Balances (λ w. w) env (list_checksums counted digests 0 99 3 true (some pfn) 16 64 env)
    × Balances (λ w. w) env (calc counted digests 0 99 3 true true md5 pfn env)
    × Balances
        (λ w. w)
        env
        (ver counted digests 0 99 3 true 64 [] md5 (λ t. codes "00ff") (codes "11ee") 16 pfn env)
manager-Balances_example =
    manager-Balances counted digests 0 99 (λ w. w)
      (counting-Counts (codes "ADLER32:1a2b3c4d\nMD5:00ff\n")) 3 64 16 true true [] md5 md5
      (codes "11ee") pfn (some md5) (λ t. codes "00ff") env

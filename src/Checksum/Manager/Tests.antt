-- ===== src/Checksum/Manager/Tests.antt =====
-- Lookups in a checksum file with two lines.
use xrootd_hdfs.Base.{pos, some, List, [], ◌∷◌, ◌≡◌, refl, arith, All}
use xrootd_hdfs.Env.{codes}
use xrootd_hdfs.Checksum.Entries.{ChecksumValue, render}
use xrootd_hdfs.Checksum.Entries.RoundTrip.{IsEntry}
use xrootd_hdfs.Checksum.Manager.{find_value, get_from}
use xrootd_hdfs.Checksum.Manager.Lookup.{found_reply, get_from-render}
use xrootd_hdfs.Sample.{sample, env}

abbrev values : List ChecksumValue
values =
    record { first = codes "Adler32"; second = codes "1a2b3c4d" }
    ∷ record { first = codes "md5"; second = codes "00ff" }
    ∷ []

values-IsEntry : All IsEntry values
values-IsEntry = (
  record { name = ground arith; value = ground arith; some_value = λ e. cc },
  (record { name = ground arith; value = ground arith; some_value = λ e. cc }, tt),
)

get_md5 :
    get_from sample 64 (codes "/data/greeting") (codes "MD5") ((pos 0, render values), env)
    ≡ some ((pos 0, some (codes "00ff")), env)
unfolding get_from render
get_md5 = refl

get_from-render_example :
    get_from sample 64 (codes "/data/greeting") (codes "MD5") ((pos 0, render values), env)
    ≡ some (found_reply sample 64 (codes "/data/greeting") env (find_value (codes "MD5") values []))
get_from-render_example =
    get_from-render sample 64 (codes "/data/greeting") (codes "MD5") values env values-IsEntry

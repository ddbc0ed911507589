-- ===== src/Checksum/Entries/Tests.antt =====
-- A checksum file with two lines.
use xrootd_hdfs.Base.{pos, neg, some, List, [], ◌∷◌, map, ◌≡◌, refl, arith, All}
use xrootd_hdfs.Env.{codes, eio}
use xrootd_hdfs.Checksum.Entries.{ChecksumValue, Parsed, parse, render}
use xrootd_hdfs.Checksum.Entries.RoundTrip.{IsEntry, upper_entry, parse-render}
use xrootd_hdfs.Checksum.Entries.Total.{parse_total}

abbrev adler : ChecksumValue
adler = record { first = codes "Adler32"; second = codes "1a2b3c4d" }

abbrev md5 : ChecksumValue
md5 = record { first = codes "md5"; second = codes "00ff" }

abbrev values : List ChecksumValue
values = adler ∷ md5 ∷ []

values-IsEntry : All IsEntry values
values-IsEntry = (
  record { name = ground arith; value = ground arith; some_value = λ e. cc },
  (record { name = ground arith; value = ground arith; some_value = λ e. cc }, tt),
)

render-values : render values ≡ codes "ADLER32:1a2b3c4d\nMD5:00ff\n"
unfolding render
render-values = refl

-- A line with no colon ends the parse with EIO, and the entries before it are kept.
parse_bad :
    parse (codes "MD5:00ff\nnothing\n") ≡ some (neg eio, record md5 { first = codes "MD5" } ∷ [])
unfolding parse
parse_bad = refl

parse-render_example : parse (render values) ≡ some (pos 0, map upper_entry values)
parse-render_example = parse-render values values-IsEntry

parse_total_example : (r : Parsed) × (parse (codes "MD5:00ff\nnothing\n") ≡ some r)
parse_total_example = parse_total (codes "MD5:00ff\nnothing\n")

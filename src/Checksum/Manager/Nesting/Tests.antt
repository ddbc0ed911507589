-- ===== src/Checksum/Manager/Nesting/Tests.antt =====
-- A Name2Name object that puts files with short names under one directory.
use xrootd_hdfs.Base.{
  ℕ, pos, some, none, List, [], ◌∷◌, ◌++◌, length, ltb, ◌≡◌, refl, if◌then◌else◌, arith,
}
use xrootd_hdfs.Env.{Env, N2n, codes}
use xrootd_hdfs.File.{is_cksums}
use xrootd_hdfs.File.Mapped.{Succeeds}
use xrootd_hdfs.Checksum.Entries.{ChecksumValue}
use xrootd_hdfs.Checksum.Manager.{get_checksum_filename, set_multiple}
use xrootd_hdfs.Checksum.Manager.Nesting.{Nests, set_multiple-Nests}
use xrootd_hdfs.Sample.{sample, digests, env}

abbrev under_store : N2n
under_store path len =
    if ltb (length path) 40 then (pos 0, codes "/store" ++ path) else (pos 0, path)

sample-Succeeds : Succeeds sample
sample-Succeeds = record {
  allocates = λ n w e. refl;
  connects = λ inst port user w e. (7, refl);
  opens = λ fs path flag w e. (3, refl);
  writes = λ fs fh s w e. refl;
  closes = λ fs h w e. refl;
}

abbrev values : List ChecksumValue
values = record { first = codes "MD5"; second = codes "00ff" } ∷ []

abbrev mapped_env : Env ℕ
mapped_env = record env { n2n = some under_store }

two_levels : Nests under_store 2 (some (codes "/store/a"))
unfolding is_cksums get_checksum_filename
two_levels = (refl, refl, (refl, refl, (refl, refl)))

set_multiple-Nests_example :
    (set_multiple sample digests 0 100 2 (some (codes "/store/a")) values mapped_env ≡ none)
    × ((e2 : Env ℕ) × (set_multiple sample digests 0 100 3
            (some (codes "/store/a"))
            values
            mapped_env
          ≡ some (pos 0, e2)))
set_multiple-Nests_example =
    set_multiple-Nests sample digests 0 99 sample-Succeeds under_store 2 3 (some (codes "/store/a"))
      values mapped_env (omega arith) two_levels refl

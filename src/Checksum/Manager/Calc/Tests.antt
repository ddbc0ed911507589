-- ===== src/Checksum/Manager/Calc/Tests.antt =====
-- `Calc` on the sample file.
use xrootd_hdfs.Plugin.{get_real_path, connect_client}
use xrootd_hdfs.Checksum.Manager.Calc.Opened.{calc_digest_lem}
use xrootd_hdfs.Checksum.Manager.{root_client, set_state, values_of, get_checksum_filename}
use xrootd_hdfs.Checksum.Manager.Nesting.{Nests, set_multiple-Nests}
use xrootd_hdfs.File.Mapped.{Succeeds}
use xrootd_hdfs.Base.{
  ◌+◌, ◌-◌, length, is_set, ℕ, ℤ, pos, neg, ◌<◌, none, some, [], ◌∷◌, Bytes, true, false, drop,
  is_neg, ◌≡◌, ◌⊎◌, refl, arith,
}
use xrootd_hdfs.Env.{Env, codes, enotsup, enomem}
use xrootd_hdfs.Checksum.State.{
  ChecksumState, create, finalize, get as state_get, adler32_bit, all_bits, cvmfs_chunk_size,
}
use xrootd_hdfs.Checksum.Manager.{get}
use xrootd_hdfs.Checksum.Manager.Calc.{Computed, digests_for, calc_digest, calc_value, compute, ver}
use xrootd_hdfs.Checksum.Manager.Calc.Whole.{sum_up, SumsUp, compute_lem}
use xrootd_hdfs.Checksum.Manager.Calc.Agrees.{compute-write_all, ver_unnamed}
use xrootd_hdfs.File.{File, new_file, open_file, is_cksums}
use xrootd_hdfs.File.Writes.{write_all}
use xrootd_hdfs.Sample.{
  sample-Interrupts, sample-Reliable, sample, content, sample-Serves, digests, digests-Streams, env,
}

abbrev state : ChecksumState Bytes
state = create digests all_bits 0

abbrev reader : File Bytes
reader = record new_file { fs = some 7; fh = some 3 }

abbrev writer : File Bytes
writer = record reader { state = some state }

start_open : state.cur_chunk_bytes < cvmfs_chunk_size
unfolding create cvmfs_chunk_size
start_open = omega arith

compute_lem_example :
    (c : Computed ℕ Bytes) × (compute sample digests 0 0 15 reader 0 state env ≡ some c)
    × SumsUp digests state (drop 0 content) c
compute_lem_example =
    compute_lem sample digests 0 0 content (λ w. w) digests-Streams 15 reader 0 state env
      (sample-Serves (some 7) (some 3)) (sample-Interrupts (some 7) (some 3)) (omega arith)
      start_open (omega arith)

compute-write_all_example :
    (c : Computed ℕ Bytes) × (compute sample digests 0 0 15 reader 0 state env ≡ some c)
    × ((is_neg c.retval ≡ true)
        ⊎ ((c.retval ≡ pos 0)
            × ((write_all sample digests writer (codes "hello, " ∷ codes "world" ∷ []) env).0.state
                ≡ some c.state)))
compute-write_all_example =
    compute-write_all sample digests 0 0 15 writer reader (codes "hello, ") (codes "world" ∷ [])
      state (λ w. w) env env digests-Streams (λ w n s. refl) refl start_open (omega arith)
      (sample-Serves (some 7) (some 3)) (sample-Interrupts (some 7) (some 3)) (omega arith)
      (omega arith)

-- With no storage system, `Get` fails.
ver_unnamed_example :
    ver sample digests 0 9 2 false 64 [] [] (λ t. []) (codes "00ff") 2 (codes "/data/greeting") env
    ≡ some (neg enotsup, env)
ver_unnamed_example =
    ver_unnamed sample digests 0 9 2 64 2 false [] (codes "00ff") (codes "/data/greeting") (λ t. [])
      env env (neg enomem) none unfound refl
  where
    unfound :
        get sample digests 0 9 2 false 64 [] (some []) (codes "/data/greeting") env
        ≡ some ((neg enomem, none), env)
    unfound = unfold get in refl

-- A Name2Name object that maps each name to itself.
abbrev mapped : Env ℕ
mapped = record env { n2n = some (λ path len. (pos 0, path)) }

sample-Succeeds : Succeeds sample
sample-Succeeds = record {
  allocates = λ n w e. refl;
  connects = λ inst port user w e. (7, refl);
  opens = λ fs path flag w e. (3, refl);
  writes = λ fs fh s w e. refl;
  closes = λ fs h w e. refl;
}

in_cksums : Nests (λ path len. (pos 0, path)) 0 (some (codes "/data/greeting"))
unfolding is_cksums get_checksum_filename
in_cksums = (refl, refl)

calc_digest_lem_example :
    (e' : Env ℕ) × (calc_digest sample digests 0 15 2 false adler32_bit
        (codes "/data/greeting")
        mapped
      ≡ some (
        calc_value (
            state_get
              (finalize digests
                (sum_up digests (create digests (digests_for false adler32_bit) 0) content))
              adler32_bit),
        e',
      ))
calc_digest_lem_example =
    calc_digest_lem sample digests 0 15 2 adler32_bit false (codes "/data/greeting") content
      (λ w. w) mapped opens digests-Streams (sample-Serves _ _) (sample-Interrupts _ _)
      (sample-Reliable _ _) enough sets
  where
    opens :
        is_set
          (open_file sample digests new_file (codes "/data/greeting") 0 root_client 0 mapped).0.0
        ≡ false
    opens = unfold open_file get_real_path connect_client in refl

    enough :
        length content
          - 0
          + (open_file sample digests new_file
              (codes "/data/greeting")
              0
              root_client
              0
              mapped).1.world
        < 15
    enough = unfold open_file get_real_path connect_client in omega arith

    sets :
        (e' : Env ℕ)
        → e'.n2n ≡ mapped.n2n
        → (result : ℤ × Env ℕ) × (set_state sample digests 0 15 2
              (some (codes "/data/greeting"))
              (finalize digests
                (sum_up digests (create digests (digests_for false adler32_bit) 0) content))
              e'
            ≡ some result)
    sets e' same =
        let s =
          finalize digests
            (sum_up digests (create digests (digests_for false adler32_bit) 0) content) in
        let (e2, p) =
          (set_multiple-Nests sample digests 0 14 sample-Succeeds (λ path len. (pos 0, path)) 0 2
            (some (codes "/data/greeting")) (values_of s) e' (omega arith) in_cksums same).1 in
        ((pos 0, e2), unfold set_state in p)

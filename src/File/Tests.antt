-- ===== src/File/Tests.antt =====
-- Writes to an open file, in order and out of order.
use xrootd_hdfs.ReadAhead.Sizes.{AtMost, Bounded}
use xrootd_hdfs.File.Soundness.{IsSound}
use xrootd_hdfs.File.Lifecycle.{here, further, opens, writes, Reach-IsSound}
use xrootd_hdfs.Base.{
  ℕ, zero, suc, ℤ, Option, length-slice, ◌+◌, ◌<◌, none, some, [], ◌∷◌, ◌++◌, Bytes, length, ◌≡◌,
  refl, arith,
}
use xrootd_hdfs.Env.{codes}
use xrootd_hdfs.Checksum.State.{ChecksumState, create, update, all_bits, cvmfs_chunk_size}
use xrootd_hdfs.File.{File, new_file, open_file, write}
use xrootd_hdfs.File.Writes.{write_all, flatten, write_all_lem, write_codes, state-write_all}
use xrootd_hdfs.File.Opening.{open_file-IsValid}
use xrootd_hdfs.ReadAhead.Fill.{IsValid}
use xrootd_hdfs.Sample.{serve, content, sample, refusing, digests, digests-Streams, env}

abbrev state : ChecksumState Bytes
state = create digests all_bits 0

abbrev opened : File Bytes
opened = record new_file {
  fs = some 7;
  fh = some 3;
  fname = some (codes "/data/greeting");
  state = some state;
}

start_open : state.cur_chunk_bytes < cvmfs_chunk_size
unfolding create cvmfs_chunk_size
start_open = omega arith

write_all_lem_example :
    let (f', _) = write_all sample digests opened (codes "hello, " ∷ codes "world" ∷ []) env in
    let content = codes "hello, " ++ flatten (codes "world" ∷ []) in
    (f'.nextoff ≡ 0 + length content) × (f'.state ≡ some (update digests state content))
write_all_lem_example =
    write_all_lem sample digests opened (codes "hello, ") (codes "world" ∷ []) state env
      digests-Streams (λ w n s. refl) refl start_open

-- An HDFS that refuses every write.
state-write_all_example :
    let (f', _) = write_all refusing digests opened (codes "hello, " ∷ codes "world" ∷ []) env in
    (f'.nextoff ≡ 0) × (f'.state ≡ some (update digests state (codes "hello, world")))
unfolding write_codes write
state-write_all_example =
    state-write_all refusing digests opened (codes "hello, ") (codes "world" ∷ []) state env
      digests-Streams refl start_open

open_file-IsValid_example :
    IsValid
      (codes "hello, world")
      (open_file sample digests new_file
        (codes "/data/greeting")
        0
        (record { sec = none })
        0
        env).0.1.buf
open_file-IsValid_example =
    open_file-IsValid sample digests (codes "hello, world") new_file (codes "/data/greeting") 0
      (record { sec = none }) 0 env refl (record { allocated = refl; small = omega arith })

sample-Bounded : Bounded sample
sample-Bounded = record { at_most = at_most }
  where
    at_most : (fs fh : Option ℕ) (off len w : ℕ) (n : ℤ) → AtMost len (serve fs fh off len w n).0
    at_most fs fh off len (suc w) n = tt
    at_most fs fh off len zero n = omega (arith, length-slice content off len)

abbrev for_writing : File Bytes
for_writing =
    (open_file sample digests new_file (codes "/data/greeting") 1 (record { sec = none }) 0 env).0.1

-- A file that is opened and written.
Reach-IsSound_example : IsSound (write sample digests for_writing (codes "hello") 0 env).0.1
Reach-IsSound_example = Reach-IsSound sample digests sample-Bounded (
    further (further here (opens new_file (codes "/data/greeting") 1 (record { sec = none }) 0 env))
      (writes for_writing (codes "hello") 0 env))

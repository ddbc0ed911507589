-- ===== src/Checksum/State/Tests.antt =====
-- Checksums of small buffers.
use xrootd_hdfs.Base.{◌<◌, ◌++◌, Bytes, ◌≡◌, refl, arith}
use xrootd_hdfs.Env.{codes}
use xrootd_hdfs.Checksum.State.{
  ChecksumState, create, update, finalize, get, all_bits, cksum_bit, cksum_byte, cvmfs_chunk_size,
}
use xrootd_hdfs.Checksum.State.Streaming.{update-append}
use xrootd_hdfs.Sample.{digests, digests-Streams}

abbrev start : ChecksumState Bytes
start = create digests all_bits 0

start_open : start.cur_chunk_bytes < cvmfs_chunk_size
unfolding create cvmfs_chunk_size
start_open = omega arith

-- `echo -n 123456789 | cksum` gives 930766865.
cksum_digits :
    get
      (finalize digests (update digests (create digests cksum_bit 0) (codes "123456789")))
      cksum_bit
    ≡ codes "930766865"
unfolding get finalize update create cksum_byte
cksum_digits = refl

update-append_example :
    update digests (update digests start (codes "hello, ")) (codes "world")
    ≡ update digests start (codes "hello, " ++ codes "world")
update-append_example =
    update-append digests digests-Streams start (codes "hello, ") (codes "world") start_open

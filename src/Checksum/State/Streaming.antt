-- ===== src/Checksum/State/Streaming.antt =====
-- `Update` in one call or in several: the state is the same.
use xrootd_hdfs.Base.{
  ℕ, ◌+◌, ◌<◌, [], ◌∷◌, ◌++◌, Bytes, Bool, true, false, ◌≡◌, refl, inl, inr, length, arith,
  Bool-cases, length-append, if◌then◌else◌,
}
use xrootd_hdfs.Checksum.State.{
  Digests, Chunking, ChecksumState, chunking, chunk_bytes, cksum_byte, cksum_bytes,
  cvmfs_chunk_size, cvmfs_bit, adler32_bit, crc32_bit, cksum_bit, md5_bit, has, update, updated,
}
use xrootd_hdfs.Checksum.State.Chunks.{
  Streams, chunk_bytes-append, chunk_bytes-lt, updated-append, with_rest,
}

cvmfs_chunk_size_pos : 0 < cvmfs_chunk_size
unfolding cvmfs_chunk_size
cvmfs_chunk_size_pos = omega arith

cksum_bytes-append :
    (crc : ℕ) (a b : Bytes) → cksum_bytes (cksum_bytes crc a) b ≡ cksum_bytes crc (a ++ b)
unfolding cksum_bytes
cksum_bytes-append crc [] b = refl
cksum_bytes-append crc (c ∷ a) b = cksum_bytes-append (cksum_byte crc c) a b

-- A part that is switched on or off by a digest bit takes its bytes in pieces if it does when on.
switched :
    {X : Type 0} (t : Bool) (f : X → Bytes → X) (x : X) (a b : Bytes)
    → f (f x a) b ≡ f x (a ++ b)
    → (if t then f (if t then f x a else x) b else (if t then f x a else x))
      ≡ (if t then f x (a ++ b) else x)
switched true f x a b e = e
switched false f x a b e = refl

module _ {Ctx : Type 0} (d : Digests Ctx) where
  abbrev chunk_step : Bool → Chunking Ctx → Bytes → Chunking Ctx
  chunk_step t c buffer =
      if t then chunk_bytes d cvmfs_chunk_size (with_rest c buffer) else with_rest c []

  chunk_step-append :
      (streams : Streams d) (t : Bool) (c : Chunking Ctx) (a b : Bytes)
      → c.cur < cvmfs_chunk_size
      → chunk_step t (chunk_step t c a) b ≡ chunk_step t c (a ++ b)
  chunk_step-append streams false c a b h = refl
  chunk_step-append streams true c a b h =
      chunk_bytes-append d streams cvmfs_chunk_size cvmfs_chunk_size_pos (length a + 1)
        (with_rest c a) b (omega arith) h

  -- The checksums of a file do not depend on the sizes of the writes: two calls of `Update` are one call
  -- on both buffers, for every set of digests, while the open chunk is smaller than a chunk, and if
  -- zlib and OpenSSL keep their promise of streaming.
  pub update-append :
      (streams : Streams d) (s : ChecksumState Ctx) (a b : Bytes)
      → s.cur_chunk_bytes < cvmfs_chunk_size
      → update d (update d s a) b ≡ update d s (a ++ b)
  unfolding update
  update-append streams s a b h =
      let chunks = chunk_step-append streams (has s.digests cvmfs_bit) (chunking d s []) a b h in
      λ i. record {
        digests = s.digests;
        crc32 =
            switched (has s.digests crc32_bit) d.crc32 s.crc32 a b (streams.crc32 s.crc32 a b) i;
        cksum =
            switched (has s.digests cksum_bit) cksum_bytes s.cksum a b
              (cksum_bytes-append s.cksum a b) i;
        adler32 =
            switched (has s.digests adler32_bit) d.adler32 s.adler32 a b
              (streams.adler32 s.adler32 a b) i;
        cur_chunk_bytes = (chunks i).cur;
        offset = counted i;
        md5 =
            switched (has s.digests md5_bit) (updated d) s.md5 a b
              (updated-append d streams s.md5 a b) i;
        file_sha1 =
            switched (has s.digests cvmfs_bit) (updated d) s.file_sha1 a b
              (updated-append d streams s.file_sha1 a b) i;
        chunk_sha1 = (chunks i).ctx;
        md5_value = s.md5_value;
        sha1_final = s.sha1_final;
        graft = s.graft;
        chunks = (chunks i).done;
      }
    where
      counted : s.offset + length a + length b ≡ s.offset + length (a ++ b)
      counted = omega (arith, length-append a b)

  -- `Update` leaves less than a chunk open.
  pub cur_chunk_bytes-update :
      (s : ChecksumState Ctx) (a : Bytes)
      → s.cur_chunk_bytes < cvmfs_chunk_size
      → (update d s a).cur_chunk_bytes < cvmfs_chunk_size
  unfolding update
  cur_chunk_bytes-update s a h = elim (Bool-cases (has s.digests cvmfs_bit)) [
    | inr off ↦ rw off h
    | inl on ↦ rw on (
        chunk_bytes-lt d cvmfs_chunk_size cvmfs_chunk_size_pos (length a + 1) (chunking d s a)
          (omega arith) h)
  ]

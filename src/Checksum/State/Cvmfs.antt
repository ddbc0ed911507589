-- ===== src/Checksum/State/Cvmfs.antt =====
-- `ChecksumState` of src/XrdHdfsChecksumCalc.cc: the chunks of a file for CVMFS, as `Update` makes them.
use xrootd_hdfs.Base.{
  ℕ, zero, suc, ◌+◌, ◌-◌, List, [], ◌∷◌, ◌++◌, Bytes, true, false, Option, none, some, take, drop,
  length, leb,
}
use xrootd_hdfs.Text.{human_readable_evp}

-- `adler32`, `crc32` of zlib.h, and `EVP_DigestInit_ex`, `EVP_DigestUpdate`, `EVP_DigestFinal_ex`.
pub record Digests (Ctx : Type 0) : Type 0 where
  pub adler32 : ℕ → Bytes → ℕ
  pub adler32_init : ℕ
  pub crc32 : ℕ → Bytes → ℕ
  pub md5_init : Ctx
  pub sha1_init : Ctx
  pub digest_update : Ctx → Bytes → Ctx
  pub digest_final : Ctx → Bytes

-- `CvmfsChunk`.
pub record Chunk : Type 0 where
  pub sha1 : Bytes
  pub offset : ℕ

-- `m_chunks.back().m_offset + CVMFS_CHUNK_SIZE`, and 0 for the first chunk.
unfoldable pub next_chunk_offset : ℕ → List Chunk → ℕ
next_chunk_offset size [] = 0
next_chunk_offset size (chunk ∷ []) = chunk.offset + size
next_chunk_offset size (chunk ∷ next ∷ chunks) = next_chunk_offset size (next ∷ chunks)

-- The variables of the CVMFS part of `Update`: `rest` is `bsize` bytes at `buffer + buffer_offset`.
pub record Chunking (Ctx : Type 0) : Type 0 where
  pub cur : ℕ
  pub ctx : Option Ctx
  pub done : List Chunk
  pub rest : Bytes

module _ {Ctx : Type 0} (d : Digests Ctx) where
  abbrev pub updated : Option Ctx → Bytes → Option Ctx
  updated none buffer = none
  updated (some ctx) buffer = some (d.digest_update ctx buffer)

  abbrev pub finalized : Option Ctx → Bytes
  finalized none = []
  finalized (some ctx) = d.digest_final ctx

  -- The body of the loop: the buffer completes a chunk.
  unfoldable pub close_chunk : ℕ → Chunking Ctx → Chunking Ctx
  unfolding human_readable_evp next_chunk_offset
  close_chunk size s =
      let new_bytes = size - s.cur in
      let sha1 = human_readable_evp (finalized (updated s.ctx (take new_bytes s.rest))) in
      record {
        cur = 0;
        ctx = some d.sha1_init;
        done = s.done ++ record { sha1 = sha1; offset = next_chunk_offset size s.done } ∷ [];
        rest = drop new_bytes s.rest;
      }

  -- `while (total_bytes >= CVMFS_CHUNK_SIZE)`, with fuel.
  unfoldable pub close_chunks : ℕ → ℕ → ℕ → Chunking Ctx → Chunking Ctx
  unfolding close_chunk
  close_chunks size zero total_bytes s = s
  close_chunks size (suc fuel) total_bytes s = elim (leb size total_bytes) [
    | true ↦ close_chunks size fuel (total_bytes - size) (close_chunk size s)
    | false ↦ s
  ]

  -- The end of the CVMFS part: what is left stays in the open chunk.
  unfoldable pub keep_rest : Chunking Ctx → Chunking Ctx
  keep_rest s = record {
    cur = s.cur + length s.rest;
    ctx = updated s.ctx s.rest;
    done = s.done;
    rest = [];
  }

  unfoldable pub chunk_bytes : ℕ → Chunking Ctx → Chunking Ctx
  unfolding close_chunks keep_rest
  chunk_bytes size s =
      let total_bytes = s.cur + length s.rest in
      keep_rest (close_chunks size (suc total_bytes) total_bytes s)

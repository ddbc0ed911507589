-- ===== src/Checksum/State/Graft.antt =====
-- The chunks that `Update` cuts and `Finalize` lists in the CVMFS graft.
use xrootd_hdfs.Base.{
  ℕ, ◌+◌, ◌*◌, ◌<◌, List, [], ◌∷◌, ◌++◌, Bytes, true, map, ltb, if◌then◌else◌, ◌≡◌, length,
}
use xrootd_hdfs.Checksum.State.{
  Digests, Chunk, Chunking, ChecksumState, chunking, cvmfs_chunk_size, cvmfs_bit, has, update,
}
use xrootd_hdfs.Env.{codes}
use xrootd_hdfs.Text.{decimal}

-- Each chunk starts where the one before it ends.
abbrev pub Tiled : ℕ → ℕ → List Chunk → Type 0
Tiled size start [] = Unit {0}
Tiled size start (chunk ∷ chunks) = (chunk.offset ≡ start) × Tiled size (start + size) chunks

-- The chunks, closed and open, are the first `fed` bytes.
pub record IsCut {Ctx : Type 0} (size : ℕ) (c : Chunking Ctx) (fed : ℕ) : Type 0 where
  pub part_open : c.cur < size
  pub covered : length c.done * size + c.cur ≡ fed
  pub tiled : Tiled size 0 c.done

pub total_length : List Bytes → ℕ
total_length [] = 0
total_length (buffer ∷ buffers) = length buffer + total_length buffers

-- Texts with commas between them.
pub joined : List Bytes → Bytes
joined [] = []
joined (s ∷ []) = s
joined (s ∷ t ∷ rest) = s ++ b',' ∷ joined (t ∷ rest)

-- The lists of the chunks in a graft: the whole chunks, or the file, if they are fewer than two.
lists_of : Bytes → List Chunk → Bytes
lists_of sha1_final chunks =
    if ltb (length chunks) 2
    then codes ";chunk_offsets=0;chunk_checksums=" ++ sha1_final
    else codes ";chunk_offsets="
      ++ joined (map (λ chunk. decimal chunk.offset) chunks)
      ++ codes ";chunk_checksums="
      ++ joined (map (λ chunk. chunk.sha1) chunks)

pub graft_of : ℕ → Bytes → List Chunk → Bytes
graft_of size sha1_final chunks =
    codes "size=" ++ decimal size ++ codes ";checksum=" ++ sha1_final ++ lists_of sha1_final chunks

module _ {Ctx : Type 0} (d : Digests Ctx) where
  -- The buffers of a file, one `Update` for each.
  unfoldable pub update_all : ChecksumState Ctx → List Bytes → ChecksumState Ctx
  update_all s [] = s
  update_all s (buffer ∷ buffers) = update_all (update d s buffer) buffers

  -- A state with the CVMFS bit whose chunks are the file so far.
  pub record IsCounted (s : ChecksumState Ctx) : Type 0 where
    pub selected : has s.digests cvmfs_bit ≡ true
    pub cut : IsCut cvmfs_chunk_size (chunking d s []) s.offset

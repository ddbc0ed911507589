-- ===== src/Checksum/State/Words.antt =====
-- The texts that `ChecksumState::Get` gives: words with no blank and no NUL.
use xrootd_hdfs.Base.{
  ℕ, zero, suc, ◌+◌, ◌-◌, List, [], ◌∷◌, Bytes, Bool, true, false, ◌&&◌, inl, inr, ◌<◌,
  if◌then◌else◌, length, leb, arith, Bool-cases, All, All-append,
}
use xrootd_hdfs.Env.{codes}
use xrootd_hdfs.Text.{human_readable_evp, htonl_bytes}
use xrootd_hdfs.Text.Words.{IsText, append-IsText, decimal-IsText, human_readable_evp-IsText}
use xrootd_hdfs.Checksum.State.Graft.{update_all}
use xrootd_hdfs.Checksum.State.{
  Digests, Chunk, Chunking, ChecksumState, close_chunk, close_chunks, keep_rest, chunk_bytes,
  chunking, create, update, finalized, finalize, get, has, more_offsets, more_checksums,
  graft_chunks, cvmfs_bit, cvmfs_chunk_size, md5_bit, cksum_bit, crc32_bit, adler32_bit,
}

abbrev HasText : Chunk → Type 0
HasText chunk = IsText chunk.sha1

-- The texts of the state: those of its chunks, and the graft.
pub record IsTextual {Ctx : Type 0} (s : ChecksumState Ctx) : Type 0 where
  pub chunks : All HasText s.chunks
  pub graft : IsText s.graft

cons-IsText : {c : ℕ} {s : Bytes} → 43 < c → IsText s → IsText (c ∷ s)
cons-IsText h k = record { plain = (h, k.plain) }

more_offsets-IsText : (chunks : List Chunk) → IsText (more_offsets chunks)
unfolding more_offsets
more_offsets-IsText [] = record { plain = tt }
more_offsets-IsText (chunk ∷ chunks) =
    cons-IsText (omega arith)
      (append-IsText (decimal-IsText chunk.offset) (more_offsets-IsText chunks))

more_checksums-IsText : (chunks : List Chunk) → All HasText chunks → IsText (more_checksums chunks)
unfolding more_checksums
more_checksums-IsText [] h = record { plain = tt }
more_checksums-IsText (chunk ∷ chunks) h =
    cons-IsText (omega arith) (append-IsText h.0 (more_checksums-IsText chunks h.1))

-- Constant texts.
offsets-IsText : IsText (codes ";chunk_offsets=0")
offsets-IsText = record { plain = ground arith }

checksums-IsText : IsText (codes ";chunk_checksums=")
checksums-IsText = record { plain = ground arith }

single-IsText : IsText (codes ";chunk_offsets=0;chunk_checksums=")
single-IsText = record { plain = ground arith }

size-IsText : IsText (codes "size=")
size-IsText = record { plain = ground arith }

checksum-IsText : IsText (codes ";checksum=")
checksum-IsText = record { plain = ground arith }

graft_chunks-IsText :
    (sha1 : Bytes) (chunks : List Chunk)
    → IsText sha1
    → All HasText chunks
    → IsText (graft_chunks sha1 chunks)
unfolding graft_chunks
graft_chunks-IsText sha1 [] h p = append-IsText single-IsText h
graft_chunks-IsText sha1 (chunk ∷ []) h p = append-IsText single-IsText h
graft_chunks-IsText sha1 (chunk ∷ next ∷ chunks) h p =
    append-IsText
      (append-IsText
        (append-IsText (append-IsText offsets-IsText (more_offsets-IsText (next ∷ chunks)))
          checksums-IsText)
        p.0)
      (more_checksums-IsText (next ∷ chunks) p.1)

module _ {Ctx : Type 0} (d : Digests Ctx) where
  close_chunks-HasText :
      (size fuel total_bytes : ℕ) (s : Chunking Ctx)
      → All HasText s.done
      → All HasText (close_chunks d size fuel total_bytes s).done
  unfolding close_chunks close_chunk
  close_chunks-HasText size zero total_bytes s h = h
  close_chunks-HasText size (suc fuel) total_bytes s h = elim (Bool-cases (leb size total_bytes)) [
    | inr done ↦ rw (done, close_chunks) h
    | inl more ↦
        rw (more, close_chunks)
          (close_chunks-HasText size fuel (total_bytes - size) (close_chunk d size s)
            (All-append HasText s.done _ h (human_readable_evp-IsText _, tt)))
  ]

  create-IsTextual : (digests garbage : ℕ) → IsTextual (create d digests garbage)
  unfolding create
  create-IsTextual digests garbage = record { chunks = tt; graft = record { plain = tt } }

  update-IsTextual :
      (s : ChecksumState Ctx) (buffer : Bytes) → IsTextual s → IsTextual (update d s buffer)
  unfolding update chunk_bytes keep_rest
  update-IsTextual s buffer h =
      let total_bytes = s.cur_chunk_bytes + length buffer in
      elim (Bool-cases (has s.digests cvmfs_bit)) [
        | inr off ↦ record { chunks = rw off h.chunks; graft = h.graft }
        | inl on ↦ record {
          chunks = rw on (
              close_chunks-HasText cvmfs_chunk_size (suc total_bytes) total_bytes
                (chunking d s buffer) h.chunks);
          graft = h.graft;
        }
      ]

  finalize-IsTextual : (s : ChecksumState Ctx) → IsTextual s → IsTextual (finalize d s)
  unfolding finalize
  finalize-IsTextual s h = elim (Bool-cases (has s.digests cvmfs_bit)) [
    | inr off ↦ record { chunks = h.chunks; graft = rw off h.graft }
    | inl on ↦ record {
      chunks = h.chunks;
      graft = rw on (
          append-IsText
            (append-IsText
              (append-IsText (append-IsText size-IsText (decimal-IsText s.offset)) checksum-IsText)
              sha1-IsText)
            (graft_chunks-IsText _ s.chunks sha1-IsText h.chunks));
    }
  ]
    where
      sha1-IsText : IsText (human_readable_evp (finalized d s.file_sha1))
      sha1-IsText = human_readable_evp-IsText (finalized d s.file_sha1)

  update_all-IsTextual :
      (s : ChecksumState Ctx) (buffers : List Bytes)
      → IsTextual s
      → IsTextual (update_all d s buffers)
  unfolding update_all
  update_all-IsTextual s [] h = h
  update_all-IsTextual s (buffer ∷ buffers) h =
      update_all-IsTextual (update d s buffer) buffers (update-IsTextual s buffer h)

  -- The state that `Close` hands on: created, fed, and finalized.
  abbrev pub recorded : ℕ → ℕ → List Bytes → ChecksumState Ctx
  recorded digests garbage buffers = finalize d (update_all d (create d digests garbage) buffers)

  pub recorded-IsTextual :
      (digests garbage : ℕ) (buffers : List Bytes) → IsTextual (recorded digests garbage buffers)
  recorded-IsTextual digests garbage buffers =
      finalize-IsTextual (update_all d (create d digests garbage) buffers)
        (update_all-IsTextual (create d digests garbage) buffers (create-IsTextual digests garbage))

-- Every text that `Get` gives is plain.
pub get-IsText :
    {Ctx : Type 0} (s : ChecksumState Ctx) (digest : ℕ) → IsTextual s → IsText (get s digest)
unfolding get
get-IsText s digest h =
    chosen (has digest cksum_bit && has s.digests cksum_bit) (decimal-IsText s.cksum) (
      chosen (has digest crc32_bit && has s.digests crc32_bit)
        (human_readable_evp-IsText (htonl_bytes s.crc32))
        (chosen (has digest adler32_bit && has s.digests adler32_bit)
          (human_readable_evp-IsText (htonl_bytes s.adler32))
          (chosen (has digest md5_bit && has s.digests md5_bit)
            (human_readable_evp-IsText s.md5_value)
            (chosen (has digest cvmfs_bit && has s.digests cvmfs_bit) h.graft nothing))))
  where
    nothing : IsText []
    nothing = record { plain = tt }

    chosen : (b : Bool) {s t : Bytes} → IsText s → IsText t → IsText (if b then s else t)
    chosen true h k = h
    chosen false h k = k

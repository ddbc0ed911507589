-- ===== src/Checksum/State.antt =====
-- `ChecksumState` of src/XrdHdfsChecksumCalc.cc. zlib's checksums and OpenSSL's digests are parameters;
-- a digest context is a value of the type `Ctx`, and `none` for NULL.
mod Cvmfs
unfoldable pub use Cvmfs.*
pub mod Chunks
pub mod Streaming
pub mod Graft
pub mod Words
mod Tests
use mathlib.Core.Option
use xrootd_hdfs.Base.{
  ℕ, zero, suc, ◌+◌, ◌-◌, ◌*◌, ◌/◌, ◌%◌, ◌^◌, List, [], ◌∷◌, ◌++◌, Bytes, Bool, true, false, Option,
  none, some, ◌&&◌, not, bit_and, bit_xor, get_or, take, drop, length, ltb, leb, ◌==◌,
  if◌then◌else◌,
}
use xrootd_hdfs.Env.{codes}
use xrootd_hdfs.Text.{decimal, human_readable_evp, htonl_bytes}
use xrootd_hdfs.Checksum.Table.{g_crctab}

-- `ChecksumManager::ChecksumTypes`.
abbrev pub md5_bit : ℕ
md5_bit = 0x01

abbrev pub cksum_bit : ℕ
cksum_bit = 0x02

abbrev pub adler32_bit : ℕ
adler32_bit = 0x04

abbrev pub cvmfs_bit : ℕ
cvmfs_bit = 0x08

abbrev pub crc32_bit : ℕ
crc32_bit = 0x10

abbrev pub all_bits : ℕ
all_bits = 0xff

-- `digests & bit`, as a condition.
abbrev pub has : ℕ → ℕ → Bool
has digests bit = not (bit_and digests bit == 0)

-- `CVMFS_CHUNK_SIZE`.
unfoldable pub cvmfs_chunk_size : ℕ
cvmfs_chunk_size = 24 * 1024 * 1024

-- `m_md5_value` holds `m_md5_length` bytes.
pub record ChecksumState (Ctx : Type 0) : Type 0 where
  pub digests : ℕ
  pub crc32 : ℕ
  pub cksum : ℕ
  pub adler32 : ℕ
  pub cur_chunk_bytes : ℕ
  pub offset : ℕ
  pub md5 : Option Ctx
  pub file_sha1 : Option Ctx
  pub chunk_sha1 : Option Ctx
  pub md5_value : Bytes
  pub sha1_final : Bytes
  pub graft : Bytes
  pub chunks : List Chunk

-- `crc = (crc << 8) ^ g_crctab[((crc >> 24) ^ c) & 0xFF]`, on `uint32_t`.
unfoldable pub cksum_byte : ℕ → ℕ → ℕ
unfolding g_crctab
cksum_byte crc c =
    bit_xor ((crc * 2 ^ 8) % 2 ^ 32) (get_or g_crctab (bit_and (bit_xor (crc / 2 ^ 24) c) 0xff) 0)

unfoldable pub cksum_bytes : ℕ → Bytes → ℕ
cksum_bytes crc [] = crc
cksum_bytes crc (c ∷ buffer) = cksum_bytes (cksum_byte crc c) buffer

-- The loop of `Finalize` over the bytes of the length, lowest first, with fuel for each.
pub cksum_length : ℕ → ℕ → ℕ → ℕ
unfolding g_crctab
cksum_length zero n crc = crc
cksum_length (suc fuel) n crc = elim (n == 0) [
  | true ↦ crc
  | false ↦ cksum_length fuel (n / 2 ^ 8) (
      bit_xor ((crc * 2 ^ 8) % 2 ^ 32) (get_or g_crctab (bit_xor (crc / 2 ^ 24) (bit_and n 255)) 0))
]

module _ {Ctx : Type 0} (d : Digests Ctx) where
  -- The constructor does not set `m_crc32`: it keeps what the memory held, `garbage`.
  unfoldable pub create : ℕ → ℕ → ChecksumState Ctx
  create digests garbage = record {
    digests = digests;
    crc32 = garbage;
    cksum = 0;
    adler32 = d.adler32_init;
    cur_chunk_bytes = 0;
    offset = 0;
    md5 = if has digests md5_bit then some d.md5_init else none;
    file_sha1 = if has digests cvmfs_bit then some d.sha1_init else none;
    chunk_sha1 = if has digests cvmfs_bit then some d.sha1_init else none;
    md5_value = [];
    sha1_final = [];
    graft = [];
    chunks = [];
  }

  abbrev pub chunking : ChecksumState Ctx → Bytes → Chunking Ctx
  chunking s buffer = record {
    cur = s.cur_chunk_bytes;
    ctx = s.chunk_sha1;
    done = s.chunks;
    rest = buffer;
  }

  unfoldable pub update : ChecksumState Ctx → Bytes → ChecksumState Ctx
  unfolding chunk_bytes cksum_bytes
  update s buffer =
      let cvmfs = has s.digests cvmfs_bit in
      let chunked =
        if cvmfs then chunk_bytes d cvmfs_chunk_size (chunking s buffer) else chunking s [] in
      record s {
        offset = s.offset + length buffer;
        adler32 = if has s.digests adler32_bit then d.adler32 s.adler32 buffer else s.adler32;
        cksum = if has s.digests cksum_bit then cksum_bytes s.cksum buffer else s.cksum;
        crc32 = if has s.digests crc32_bit then d.crc32 s.crc32 buffer else s.crc32;
        md5 = if has s.digests md5_bit then updated d s.md5 buffer else s.md5;
        file_sha1 = if cvmfs then updated d s.file_sha1 buffer else s.file_sha1;
        cur_chunk_bytes = chunked.cur;
        chunk_sha1 = chunked.ctx;
        chunks = chunked.done;
      }

-- `;chunk_offsets=0,…;chunk_checksums=…` for the chunks behind the first.
pub more_offsets : List Chunk → Bytes
unfolding decimal
more_offsets [] = []
more_offsets (chunk ∷ chunks) = b',' ∷ (decimal chunk.offset ++ more_offsets chunks)

pub more_checksums : List Chunk → Bytes
more_checksums [] = []
more_checksums (chunk ∷ chunks) = b',' ∷ (chunk.sha1 ++ more_checksums chunks)

-- The text that `Finalize` makes of the chunks: with fewer than two, the file is its only chunk.
unfoldable pub graft_chunks : Bytes → List Chunk → Bytes
unfolding more_offsets more_checksums
graft_chunks sha1_final [] = codes ";chunk_offsets=0;chunk_checksums=" ++ sha1_final
graft_chunks sha1_final (chunk ∷ []) = codes ";chunk_offsets=0;chunk_checksums=" ++ sha1_final
graft_chunks sha1_final (chunk ∷ next ∷ chunks) =
    codes ";chunk_offsets=0"
    ++ more_offsets (next ∷ chunks)
    ++ codes ";chunk_checksums="
    ++ chunk.sha1
    ++ more_checksums (next ∷ chunks)

module _ {Ctx : Type 0} (d : Digests Ctx) where
  -- The chunk that is still open is hashed into a local variable, and never added to the list.
  unfoldable pub finalize : ChecksumState Ctx → ChecksumState Ctx
  unfolding cksum_length graft_chunks decimal human_readable_evp
  finalize s =
      let md5 = has s.digests md5_bit in
      let cvmfs = has s.digests cvmfs_bit in
      let crc = cksum_length (suc s.offset) s.offset s.cksum in
      let sha1_final = human_readable_evp (finalized d s.file_sha1) in
      let graft =
        codes "size="
        ++ decimal s.offset
        ++ codes ";checksum="
        ++ sha1_final
        ++ graft_chunks sha1_final s.chunks in
      record s {
        md5_value = if md5 then finalized d s.md5 else s.md5_value;
        md5 = if md5 then none else s.md5;
        cksum = if has s.digests cksum_bit then bit_xor crc 0xffffffff else s.cksum;
        file_sha1 = if cvmfs then none else s.file_sha1;
        chunk_sha1 = if cvmfs then none else s.chunk_sha1;
        sha1_final = if cvmfs then sha1_final else s.sha1_final;
        graft = if cvmfs then graft else s.graft;
      }

-- `ChecksumState::Get`.
unfoldable pub get : {Ctx : Type 0} → ChecksumState Ctx → ℕ → Bytes
unfolding decimal human_readable_evp
get s digest =
    if has digest cksum_bit && has s.digests cksum_bit
    then decimal s.cksum
    else if has digest crc32_bit && has s.digests crc32_bit
    then human_readable_evp (htonl_bytes s.crc32)
    else if has digest adler32_bit && has s.digests adler32_bit
    then human_readable_evp (htonl_bytes s.adler32)
    else if has digest md5_bit && has s.digests md5_bit
    then human_readable_evp s.md5_value
    else if has digest cvmfs_bit && has s.digests cvmfs_bit
    then s.graft
    else []

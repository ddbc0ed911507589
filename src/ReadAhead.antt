-- ===== src/ReadAhead.antt =====
-- src/XrdHdfs.cc, `XrdHdfsFile::Read(void *, off_t, size_t)`: reads through a read-ahead buffer.
-- The loop that fills the buffer retries EINTR without a limit, so it runs on fuel here, and
-- `none` says that the fuel ran out. Offsets are not negative.
pub mod Fill
pub mod Pieces
pub mod Exact
pub mod Sequence
pub mod Sizes
pub mod Spending
pub mod Handles
pub mod Reliable
pub mod Mapping
mod Tests
use xrootd_hdfs.Base.{
  ℕ, zero, suc, ℤ, pos, Bool, true, false, Option, none, some, [], ◌∷◌, ◌++◌, ◌+◌, ◌-◌, ◌%◌, ◌^◌,
  ◌&&◌, Bytes, length, slice, overwrite, ltb, leb, eq_ℤ, is_set, if◌then◌else◌,
}
use xrootd_hdfs.Env.{Env, External, Pread, got, failed, call, eintr}
use xrootd_hdfs.Plugin.{emsg}

-- The fields `readbuf…` of `XrdHdfsFile`: `mem` is the allocated memory, or `none` for NULL.
pub record ReadBuf : Type 0 where
  pub mem : Option Bytes
  pub size : ℕ
  pub offset : ℕ
  pub len : ℕ
  pub bypassed : ℕ
  pub misses : ℕ
  pub hits : ℕ
  pub partial_hits : ℕ
  pub bytes_used : ℕ
  pub bytes_loaded : ℕ

abbrev pub contents : Option Bytes → Bytes
contents none = []
contents (some m) = m

-- `size_t` and `unsigned long` sums and differences, and `unsigned int` counters.
abbrev pub add_size : ℕ → ℕ → ℕ
add_size a b = (a + b) % 2 ^ 64

abbrev pub sub_size : ℕ → ℕ → ℕ
sub_size a b = (a + 2 ^ 64 - b) % 2 ^ 64

abbrev pub bump : ℕ → ℕ
bump n = (n + 1) % 2 ^ 32

-- The branches that the loop takes on the count and `errno` of one `hdfsPread`.
pub data Reply : Type 0 where
  interrupted broken at_end : Reply
  loaded : Bytes → Reply

abbrev pub reply : Pread → ℤ → Reply
reply failed n = if eq_ℤ n eintr then interrupted else broken
reply (got []) n = if is_set n then broken else at_end
reply (got (c ∷ s)) n = loaded (c ∷ s)

-- `hdfsPread` has stored `bs` behind the bytes in the buffer.
abbrev pub store_mem : Option Bytes → ℕ → Bytes → Option Bytes
store_mem none len bs = none
store_mem (some m) len bs = some (overwrite m len bs)

abbrev pub store : ReadBuf → Bytes → ReadBuf
store b bs = record b { mem = store_mem b.mem b.len bs; len = b.len + length bs }

-- How the loop ended: with the code of an early return, or with `none` behind the loop.
pub record Filled (W : Type 0) : Type 0 where
  pub status : Option ℤ
  pub buf : ReadBuf
  pub env : Env W

-- What `Read` gives: the bytes that it put in the caller's buffer and counted, or an error code.
pub data Result : Type 0 where
  bytes : Bytes → Result
  error : ℤ → Result

pub record Done (W : Type 0) : Type 0 where
  pub result : Result
  pub buf : ReadBuf
  pub env : Env W

-- The bytes at the front of a request that the buffer holds.
abbrev pub inside : ReadBuf → ℕ → Bool
inside b offset = leb b.offset offset && ltb offset (b.offset + b.len)

abbrev pub front : ReadBuf → ℕ → Bytes
front b offset =
    if inside b offset
    then slice (contents b.mem) (offset - b.offset) (b.len - (offset - b.offset))
    else []

abbrev pub count_front : ReadBuf → ℕ → ReadBuf
count_front b offset =
    if inside b offset
    then record b {
      partial_hits = bump b.partial_hits;
      bytes_used = add_size b.bytes_used (b.len - (offset - b.offset));
    }
    else record b { misses = bump b.misses }

module _ {W : Type 0} where
  -- The early return of the loop.
  stop_with : ReadBuf → Env W → Filled W
  unfolding emsg
  stop_with b e = let (rc, e') = emsg e.errno e in record { status = some rc; buf = b; env = e' }

  -- The rest of one round; `again` is the next round.
  resume : (ReadBuf → Env W → Option (Filled W)) → ReadBuf → Reply → Env W → Option (Filled W)
  unfolding stop_with
  resume again b interrupted e = again b e
  resume again b broken e = some (stop_with b e)
  resume again b at_end e = some (record { status = none; buf = b; env = e })
  resume again b (loaded bs) e = again (store b bs) e

  -- A request that the buffer satisfies.
  pub hit : ReadBuf → ℕ → ℕ → Env W → Done W
  hit b offset blen e = record {
    result = bytes (slice (contents b.mem) (offset - b.offset) blen);
    buf = record b { hits = bump b.hits; bytes_used = add_size b.bytes_used blen };
    env = e;
  }

  -- The answer to one unbuffered `hdfsPread`.
  unfoldable pub answer : ReadBuf → Reply → Env W → Done W
  unfolding emsg
  answer b (loaded bs) e = record { result = bytes bs; buf = b; env = e }
  answer b at_end e = record { result = bytes []; buf = b; env = e }
  answer b _ e = let (rc, e') = emsg e.errno e in record { result = error rc; buf = b; env = e' }

  -- The copy behind the loop, unless the loop returned.
  pub finish : Option ℤ → Bytes → ℕ → ReadBuf → Env W → Done W
  finish (some rc) head blen b e = record { result = error rc; buf = b; env = e }
  finish none head blen b e =
      let bytes_to_copy = if ltb b.len blen then b.len else blen in
      record {
        result = bytes (head ++ slice (contents b.mem) 0 bytes_to_copy);
        buf = record b { bytes_loaded = add_size b.bytes_loaded (b.len - bytes_to_copy) };
        env = e;
      }

  pub finish_filled : Bytes → ℕ → Option (Filled W) → Option (Done W)
  unfolding finish
  finish_filled head blen none = none
  finish_filled head blen (some f) = some (finish f.status head blen f.buf f.env)

module _ {W : Type 0} (x : External W) (fs fh : Option ℕ) where
  pub fill : ℕ → ℕ → ReadBuf → Env W → Option (Filled W)
  unfolding resume
  fill zero offset b e = none
  fill (suc fuel) offset b e = elim (ltb b.len b.size) [
    | true ↦
        let (r, e') =
          call (x.pread fs fh (offset + b.len) (b.size - b.len)) (record e { errno = pos 0 }) in
        resume (fill fuel offset) b (reply r e'.errno) e'
    | false ↦ some (record { status = none; buf = b; env = e })
  ]

  -- A request that is larger than the buffer.
  unfoldable pub read_around : ReadBuf → ℕ → ℕ → Env W → Done W
  unfolding answer
  read_around b offset blen e =
      let (r, e') = call (x.pread fs fh offset blen) (record e { errno = pos 0 }) in
      answer (record b { bypassed = bump b.bypassed }) (reply r e'.errno) e'

  -- A request that the buffer does not satisfy whole.
  pub refill : ℕ → ReadBuf → ℕ → ℕ → Env W → Option (Done W)
  unfolding fill finish_filled
  refill fuel b offset blen e =
      let head = front b offset in
      let next = offset + length head in
      finish_filled head (sub_size blen (length head))
        (fill fuel next (record (count_front b offset) { offset = next; len = 0 }) e)

  unfoldable pub read : ℕ → ReadBuf → ℕ → ℕ → Env W → Option (Done W)
  unfolding read_around hit refill
  read fuel b offset blen e =
      let around = some (read_around b offset blen e) in
      if ltb b.size blen
      then around
      else if leb b.offset offset && leb (add_size offset blen) (add_size b.offset b.len)
      then some (hit b offset blen e)
      else refill fuel b offset blen e

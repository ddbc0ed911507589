-- ===== src/File/Opening.antt =====
-- `Open`: the object that it leaves behind.
use xrootd_hdfs.Base.{
  ℤ, some, Option, ℕ, zero, suc, sym, ◌≤◌, none, some, ◌≡◌, refl, ap, ◌∙◌, inl, inr, Bytes, length,
  arith, Bool-cases, Option-cases,
}
use xrootd_hdfs.Env.{Env, External, Client, o_rdonly}
use xrootd_hdfs.ReadAhead.{ReadBuf, contents}
use xrootd_hdfs.ReadAhead.Fill.{IsValid}
use xrootd_hdfs.Checksum.State.{Digests, ChecksumState}
use xrootd_hdfs.Plugin.{connect_client, get_real_path}
use xrootd_hdfs.File.{
  File, new_file, no_buffer, zeros, allocate, open_connected, open_file, open_flag, close,
  readbuf_bytes, fresh_memory,
}

-- The memory of the read-ahead buffer has the size that the object knows.
pub record IsSized (b : ReadBuf) : Type 0 where
  pub allocated : length (contents b.mem) ≡ b.size
  pub small : b.size ≤ 32768

length-zeros : (n : ℕ) → length (zeros n) ≡ n
unfolding zeros
length-zeros zero = refl
length-zeros (suc n) = ap suc (length-zeros n)

length-fresh_memory : length fresh_memory ≡ 32768
unfolding fresh_memory
length-fresh_memory = length-zeros 32768

module _ {W Ctx : Type 0} (x : External W) (d : Digests Ctx) where
  -- The buffer is emptied, and is valid for any file.
  pub allocate-IsValid :
      (content : Bytes) (b : ReadBuf) (e : Env W) → IsSized b → IsValid content (allocate x d b e).0
  unfolding allocate
  allocate-IsValid content b e h = elim (Option-cases b.mem) [
    | inr (m, has_mem) ↦
        rw (has_mem, allocate)
          (record {
            allocated = ap (λ o. length (contents o)) (sym has_mem) ∙ h.allocated;
            small = h.small;
            fits = omega arith;
            held = refl;
            in_file = inl refl;
          })
    | inl no_mem ↦
        rw (no_mem, allocate)
          (elim (Bool-cases (x.alloc readbuf_bytes e.world e.errno).0) [
            | inl ok ↦ rw ok (record {
              allocated = length-fresh_memory;
              small = omega arith;
              fits = omega arith;
              held = refl;
              in_file = inl refl;
            })
            | inr failed ↦ rw failed (record {
              allocated = refl;
              small = omega arith;
              fits = omega arith;
              held = refl;
              in_file = inl refl;
            })
          ])
  ]

  -- What follows the connection leaves the buffer alone.
  buf-open_connected :
      (f : File Ctx) (flag fs garbage : ℕ) (e : Env W)
      → (open_connected x d f flag fs garbage e).0.1.buf ≡ f.buf
  unfolding open_connected
  buf-open_connected f flag fs garbage e =
      elim (Option-cases (x.open_file fs f.fname flag e.world e.errno).0) [
        | inl null ↦ rw null refl
        | inr (h, opened) ↦ rw opened refl
      ]

  -- `Open` of an object with no open file, whose buffer memory has the size that the object knows, leaves
  -- a read-ahead buffer that is valid for every file: whether or not the allocation of the buffer, the
  -- connection and `hdfsOpenFile` succeed.
  pub open_file-IsValid :
      (content : Bytes) (f : File Ctx) (name : Bytes) (mode : ℕ) (client : Client) (garbage : ℕ)
      (e : Env W)
      → f.fh ≡ none
      → IsSized f.buf
      → IsValid content (open_file x d f name mode client garbage e).0.1.buf
  unfolding open_file
  open_file-IsValid content f name mode client garbage e closed h =
      let e1 = (get_real_path x name e).1 in
      let b = allocate x d f.buf e1 in
      elim (Option-cases (connect_client x (some client) b.1).0) [
        | inl null ↦ rw (closed, null) (allocate-IsValid content f.buf e1 h)
        | inr (fs, connected) ↦
            let named = record f {
              fs = some fs;
              fh = none;
              fname = (get_real_path x name e).0;
              buf = b.0;
            } in
            rw
              (
                closed,
                connected,
                buf-open_connected named (open_flag mode) fs garbage
                    (connect_client x (some client) b.1).1,
              )
              (allocate-IsValid content f.buf e1 h)
      ]

  state-open_connected :
      (f : File Ctx) (fs garbage : ℕ) (e : Env W)
      → (open_connected x d f 0 fs garbage e).0.1.state ≡ f.state
  unfolding open_connected
  state-open_connected f fs garbage e =
      elim (Option-cases (x.open_file fs f.fname 0 e.world e.errno).0) [
        | inl null ↦ rw null refl
        | inr (h, opened) ↦ rw opened refl
      ]

  -- A new object that is opened for reading has no checksums.
  pub state-open_file :
      (name : Bytes) (client : Client) (garbage : ℕ) (e : Env W)
      → (open_file x d new_file name o_rdonly client garbage e).0.1.state ≡ none
  unfolding open_file open_flag
  state-open_file name client garbage e =
      let b = allocate x d no_buffer (get_real_path x name e).1 in
      elim (Option-cases (connect_client x (some client) b.1).0) [
        | inl null ↦ rw null refl
        | inr (fs, connected) ↦ rw connected (
            state-open_connected
              (record new_file { fs = some fs; fname = (get_real_path x name e).0; buf = b.0 }) fs
              garbage (connect_client x (some client) b.1).1)
      ]

  -- `Close` of an object with no checksums records nothing.
  pub close_reader :
      (set : Option Bytes → ChecksumState Ctx → Env W → Option (ℤ × Env W)) (f : File Ctx)
      (e : Env W)
      → f.state ≡ none
      → (r : (ℤ × File Ctx) × Env W) × (close x d set f e ≡ some r)
  unfolding close
  close_reader set f e h = rw (h, close) (_, refl)

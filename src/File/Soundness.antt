-- ===== src/File/Soundness.antt =====
-- Each call on an `XrdHdfsFile` keeps the object well-formed.
use xrootd_hdfs.Base.{
  OnSome, ℕ, ℤ, ◌<◌, Option, none, some, [], Bytes, ◌&&◌, not, bit_and, ◌==◌, is_set, ◌≡◌, refl,
  sym, ◌∙◌, inl, inr, arith, Bool-cases, Option-cases,
}
use xrootd_hdfs.Env.{Env, External, Client, o_wronly}
use xrootd_hdfs.Plugin.{connect_client, get_real_path}
use xrootd_hdfs.ReadAhead.{Done, read}
use xrootd_hdfs.ReadAhead.Sizes.{Bounded, Keeps, read-Keeps}
use xrootd_hdfs.Checksum.State.{
  Digests, ChecksumState, create, cvmfs_chunk_size, all_bits, finalize,
}
use xrootd_hdfs.Checksum.State.Streaming.{cur_chunk_bytes-update}
use xrootd_hdfs.File.{
  File, allocate, open_connected, open_file, open_flag, is_cksums, fed, write, close_handle, close,
  read_file,
}
use xrootd_hdfs.File.Opening.{IsSized, allocate-IsValid}

-- Less than a chunk is open in the checksums.
abbrev pub OpenChunk : {Ctx : Type 0} → Option (ChecksumState Ctx) → Type 0
OpenChunk none = Unit {0}
OpenChunk (some s) = s.cur_chunk_bytes < cvmfs_chunk_size

-- The memory of the buffer has the size that the object knows, an object with no open file has no
-- checksums, and the checksums have less than a chunk open.
pub record IsSound {Ctx : Type 0} (f : File Ctx) : Type 0 where
  pub sized : IsSized f.buf
  pub closed : f.fh ≡ none → f.state ≡ none
  pub open_chunk : OpenChunk f.state

module _ {W Ctx : Type 0} (x : External W) (d : Digests Ctx) where
  some_or_none : {A B : Type 0} (a : A) → some a ≡ none → B
  some_or_none a p = absurd (ground arith)

  pub read_file-IsSound :
      (f : File Ctx) (fuel offset blen : ℕ) (e : Env W)
      → Bounded x
      → IsSound f
      → OnSome {A = Done W × File Ctx} (λ r. IsSound r.1) (read_file x d fuel f offset blen e)
  unfolding read_file
  read_file-IsSound f fuel offset blen e bounded s =
      by_read (read x f.fs f.fh fuel f.buf offset blen e) (
        read-Keeps x f.fs f.fh f.buf.size bounded fuel f.buf offset blen e
          (record { known = refl; allocated = s.sized.allocated }))
    where
      by_read :
          (o : Option (Done W))
          → OnSome (λ r. Keeps f.buf.size r.buf) o
          → OnSome {A = Done W × File Ctx}
              (λ r. IsSound r.1)
              (elim o [ none ↦ none | some r ↦ some (r, record f { buf = r.buf }) ])
      by_read none k = tt
      by_read (some r) k = record {
        sized = record {
          allocated = k.allocated ∙ sym k.known;
          small = omega (arith, k.known, s.sized.small);
        };
        closed = s.closed;
        open_chunk = s.open_chunk;
      }

  fed-OpenChunk :
      (o : Option (ChecksumState Ctx)) (buff : Bytes) → OpenChunk o → OpenChunk (fed d o buff)
  unfolding fed
  fed-OpenChunk none buff h = tt
  fed-OpenChunk (some s) buff h = cur_chunk_bytes-update d s buff h

  fed-none : (o : Option (ChecksumState Ctx)) (buff : Bytes) → o ≡ none → fed d o buff ≡ none
  unfolding fed
  fed-none o buff h = rw h refl

  pub write-IsSound :
      (f : File Ctx) (buff : Bytes) (offset : ℕ) (e : Env W)
      → IsSound f
      → IsSound (write x d f buff offset e).0.1
  unfolding write
  write-IsSound f buff offset e s = elim (Bool-cases (offset == f.nextoff)) [
    | inr elsewhere ↦ rw elsewhere s
    | inl next ↦ rw next (record {
      sized = s.sized;
      closed = λ h. fed-none f.state buff (s.closed h);
      open_chunk = fed-OpenChunk f.state buff s.open_chunk;
    })
  ]

  no_state-OpenChunk : (o : Option (ChecksumState Ctx)) → o ≡ none → OpenChunk o
  no_state-OpenChunk none h = tt
  no_state-OpenChunk (some s) h = some_or_none s h

  pub create-OpenChunk : (digests garbage : ℕ) → OpenChunk (some (create d digests garbage))
  unfolding create cvmfs_chunk_size
  create-OpenChunk digests garbage = omega arith

  -- An object that is not open, behind a failure of `Open`.
  unopened-IsSound : (f : File Ctx) → IsSized f.buf → f.state ≡ none → IsSound f
  unopened-IsSound f b none_left = record {
    sized = b;
    closed = λ _. none_left;
    open_chunk = no_state-OpenChunk f.state none_left;
  }

  open_connected-IsSound :
      (f : File Ctx) (flag fs garbage : ℕ) (e : Env W)
      → IsSized f.buf
      → f.state ≡ none
      → IsSound (open_connected x d f flag fs garbage e).0.1
  unfolding open_connected
  open_connected-IsSound f flag fs garbage e b none_left =
      elim (Option-cases (x.open_file fs f.fname flag e.world e.errno).0) [
        | inl null ↦ rw null (unopened-IsSound f b none_left)
        | inr (h, opened) ↦
            rw opened
              (elim (Bool-cases (not (bit_and flag o_wronly == 0) && not (is_cksums f.fname))) [
                | inl written ↦ rw written (record {
                  sized = b;
                  closed = λ p. some_or_none h p;
                  open_chunk = create-OpenChunk all_bits garbage;
                })
                | inr unwritten ↦ rw unwritten (record {
                  sized = b;
                  closed = λ p. some_or_none h p;
                  open_chunk = no_state-OpenChunk f.state none_left;
                })
              ])
      ]

  pub open_file-IsSound :
      (f : File Ctx) (path : Bytes) (mode : ℕ) (client : Client) (garbage : ℕ) (e : Env W)
      → IsSound f
      → IsSound (open_file x d f path mode client garbage e).0.1
  unfolding open_file
  open_file-IsSound f path mode client garbage e s = elim (Option-cases f.fh) [
    | inr (h, in_use) ↦
        rw in_use
          (record { sized = s.sized; closed = λ p. some_or_none h p; open_chunk = s.open_chunk })
    | inl closed ↦
        let e1 = (get_real_path x path e).1 in
        let b = allocate x d f.buf e1 in
        let valid = allocate-IsValid x d [] f.buf e1 s.sized in
        let sized : IsSized b.0 = record { allocated = valid.allocated; small = valid.small } in
        elim (Option-cases (connect_client x (some client) b.1).0) [
          | inl null ↦
              rw (closed, null)
                (unopened-IsSound
                  (record f { fs = none; fh = none; fname = (get_real_path x path e).0; buf = b.0 })
                  sized (s.closed closed))
          | inr (fs, connected) ↦
              rw (closed, connected)
                (open_connected-IsSound
                  (record f {
                    fs = some fs;
                    fh = none;
                    fname = (get_real_path x path e).0;
                    buf = b.0;
                  })
                  (open_flag mode) fs garbage (connect_client x (some client) b.1).1 sized
                  (s.closed closed))
        ]
  ]

  -- The object behind `Close`: its buffer is freed, or there was none.
  closed-IsSound :
      (f : File Ctx)
      → IsSized f.buf
      → IsSound (record f {
        fh = none;
        fname = none;
        buf = elim f.buf.mem [
          | some _ ↦ record (f.buf) { mem = none; size = 0; offset = 0; len = 0 }
          | none ↦ f.buf
        ];
        state = none;
      })
  closed-IsSound f b = elim (Option-cases f.buf.mem) [
    | inl no_mem ↦ rw no_mem (record {
      sized = record { allocated = b.allocated; small = b.small };
      closed = λ _. refl;
      open_chunk = tt;
    })
    | inr (m, has_mem) ↦ rw has_mem (record {
      sized = record { allocated = refl; small = omega arith };
      closed = λ _. refl;
      open_chunk = tt;
    })
  ]

  pub close-IsSound :
      (f : File Ctx) (set : Option Bytes → ChecksumState Ctx → Env W → Option (ℤ × Env W))
      (e : Env W)
      → IsSound f
      → OnSome {A = (ℤ × File Ctx) × Env W} (λ r. IsSound r.0.1) (close x d set f e)
  unfolding close
  close-IsSound f set e s = elim (Option-cases f.state) [
    | inl none_left ↦ rw (none_left, close) (closed-IsSound f s.sized)
    | inr (st, kept) ↦ elim (Bool-cases (is_set (close_handle x d f e).0)) [
      | inl bad ↦ rw (kept, close, bad, close) (closed-IsSound f s.sized)
      | inr fine ↦ elim (Option-cases (set f.fname (finalize d st) (close_handle x d f e).1)) [
        | inl out ↦ rw (kept, close, fine, close, out, close) tt
        | inr (r, done) ↦ rw (kept, close, fine, close, done, close) (closed-IsSound f s.sized)
      ]
    ]
  ]

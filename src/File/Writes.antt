-- ===== src/File/Writes.antt =====
-- Writes go in order, and the checksums are those of what was written.
use xrootd_hdfs.Base.{
  Bool-cases, inl, inr, ◌==◌, ℕ, ℤ, pos, negsuc, is_neg, ◌+◌, ◌<◌, true, Option, some, List, [],
  ◌∷◌, ◌++◌, ◌≡◌, ◌≢◌, refl, ap, ◌∙◌, Bytes, length, arith, ne→==, ==_self, append-nil,
  length-append,
}
use xrootd_hdfs.Env.{Env, M, External, enotsup}
use xrootd_hdfs.Plugin.Errors.{emsg_neg}
use xrootd_hdfs.Checksum.State.{Digests, ChecksumState, update, cvmfs_chunk_size}
use xrootd_hdfs.Checksum.State.Chunks.{Streams}
use xrootd_hdfs.Checksum.State.Streaming.{update-append, cur_chunk_bytes-update}
use xrootd_hdfs.File.{File, write, advance, fed}

-- The content of the file: the buffers one behind the other.
abbrev pub flatten : List Bytes → Bytes
flatten [] = []
flatten (buff ∷ buffs) = buff ++ flatten buffs

module _ {W Ctx : Type 0} (x : External W) (d : Digests Ctx) where
  -- A write at any other offset than the next is refused: a negative code, and neither the file object
  -- nor HDFS changes.
  pub write_out_of_order :
      (f : File Ctx) (buff : Bytes) (offset : ℕ) (e : Env W)
      → offset ≢ f.nextoff
      → let ((rc, f'), e') = write x d f buff offset e in
        (is_neg rc ≡ true) × (f' ≡ f) × (e'.world ≡ e.world)
  unfolding write
  write_out_of_order f buff offset e h =
      rw (ne→== offset f.nextoff h) (emsg_neg enotsup e, refl, refl)

  -- The calls of a client that writes its buffers one behind the other.
  unfoldable pub write_all : File Ctx → List Bytes → M W (File Ctx)
  write_all f [] e = (f, e)
  write_all f (buff ∷ buffs) e =
      let ((rc, f'), e') = write x d f buff f.nextoff e in write_all f' buffs e'

  fname-write :
      (f : File Ctx) (buff : Bytes) (offset : ℕ) (e : Env W)
      → (write x d f buff offset e).0.1.fname ≡ f.fname
  unfolding write
  fname-write f buff offset e = elim (Bool-cases (offset == f.nextoff)) [
    | inl in_order ↦ rw in_order refl
    | inr out_of_order ↦ rw out_of_order refl
  ]

  pub fname-write_all :
      (f : File Ctx) (buffs : List Bytes) (e : Env W) → (write_all f buffs e).0.fname ≡ f.fname
  unfolding write_all
  fname-write_all f [] e = refl
  fname-write_all f (buff ∷ buffs) e =
      let ((rc, f'), e') = write x d f buff f.nextoff e in
      fname-write_all f' buffs e' ∙ fname-write f buff f.nextoff e

  -- `hdfsWrite` on these handles takes all that it is given.
  abbrev pub WritesAll : File Ctx → Type 0
  WritesAll f = (w : W) (n : ℤ) (s : Bytes) → (x.write f.fs f.fh s w n).0 ≡ pos (length s)

  -- A write in order, where HDFS takes the whole buffer.
  write_lem :
      (f : File Ctx) (buff : Bytes) (s : ChecksumState Ctx) (e : Env W)
      → WritesAll f
      → f.state ≡ some s
      → (write x d f buff f.nextoff e).0 ≡ (
        pos (length buff),
        record f { nextoff = f.nextoff + length buff; state = some (update d s buff) },
      )
  unfolding write
  write_lem f buff s e h st = rw (==_self f.nextoff) λ i.
      let p = h e.world e.errno buff i in
      (p, record f { nextoff = advance f.nextoff p; state = fed d (st i) buff })

  write_all-cons :
      (f : File Ctx) (buff : Bytes) (buffs : List Bytes) (s : ChecksumState Ctx) (e : Env W)
      → WritesAll f
      → f.state ≡ some s
      → write_all f (buff ∷ buffs) e
        ≡ write_all
            (record f { nextoff = f.nextoff + length buff; state = some (update d s buff) })
            buffs
            (write x d f buff f.nextoff e).1
  unfolding write_all
  write_all-cons f buff buffs s e h st =
      ap {A = ℤ × File Ctx} (λ r. write_all r.1 buffs (write x d f buff f.nextoff e).1)
        (write_lem f buff s e h st)

  -- If HDFS takes every write whole, then after writing one or more buffers one behind the other, the
  -- next offset is behind the last byte, and the checksum state is that of one `Update` with the bytes of
  -- all buffers. The file has a checksum state with less than a chunk open, and zlib's and OpenSSL's
  -- functions may be fed in pieces.
  pub write_all_lem :
      (f : File Ctx) (buff : Bytes) (buffs : List Bytes) (s : ChecksumState Ctx) (e : Env W)
      → Streams d
      → WritesAll f
      → f.state ≡ some s
      → s.cur_chunk_bytes < cvmfs_chunk_size
      → let (f', _) = write_all f (buff ∷ buffs) e in
        let content = buff ++ flatten buffs in
        (f'.nextoff ≡ f.nextoff + length content) × (f'.state ≡ some (update d s content))
  write_all_lem f buff [] s e streams h st c =
      rw (write_all-cons f buff [] s e h st, append-nil) (unfold write_all in (refl, refl))
  write_all_lem f buff (next ∷ buffs) s e streams h st c =
      let f' = record f { nextoff = f.nextoff + length buff; state = some (update d s buff) } in
      let (off, fin) =
        write_all_lem f' next buffs (update d s buff) (write x d f buff f.nextoff e).1 streams h
          refl (cur_chunk_bytes-update d s buff c) in
      rw (write_all-cons f buff (next ∷ buffs) s e h st) (
        omega (arith, off, length-append buff (next ++ flatten buffs)),
        fin ∙ ap some (update-append d streams s buff (next ++ flatten buffs) c),
      )

  write_in_order :
      (f : File Ctx) (buff : Bytes) (e : Env W)
      → let (result, w, n) = x.write f.fs f.fh buff e.world e.errno in
        write x d f buff f.nextoff e ≡ (
          (result, record f { nextoff = advance f.nextoff result; state = fed d f.state buff }),
          record e { world = w; errno = n },
        )
  unfolding write
  write_in_order f buff e = rw (==_self f.nextoff) refl

  -- What the calls return.
  unfoldable pub write_codes : File Ctx → List Bytes → Env W → List ℤ
  write_codes f [] e = []
  write_codes f (buff ∷ buffs) e =
      let ((rc, f'), e') = write x d f buff f.nextoff e in rc ∷ write_codes f' buffs e'

  -- The bytes that the codes count: those of calls that failed count none.
  abbrev pub counted : List ℤ → ℕ
  counted [] = 0
  counted (pos n ∷ codes) = n + counted codes
  counted (negsuc n ∷ codes) = counted codes

  counted-advance :
      (offset : ℕ) (rc : ℤ) (codes : List ℤ)
      → advance offset rc + counted codes ≡ offset + counted (rc ∷ codes)
  unfolding advance
  counted-advance offset (pos n) codes = omega arith
  counted-advance offset (negsuc n) codes = omega arith

  -- What is left behind one write in order.
  abbrev after_one : File Ctx → Bytes → Env W → File Ctx × Env W
  after_one f buff e =
      let (rc, w, n) = x.write f.fs f.fh buff e.world e.errno in
      (
        record f { nextoff = advance f.nextoff rc; state = fed d f.state buff },
        record e { world = w; errno = n },
      )

  first_write :
      (f : File Ctx) (buff : Bytes) (buffs : List Bytes) (e : Env W)
      → let (f', e') = after_one f buff e in write_all f (buff ∷ buffs) e ≡ write_all f' buffs e'
  unfolding write_all
  first_write f buff buffs e =
      ap {A = (ℤ × File Ctx) × Env W} (λ r. write_all r.0.1 buffs r.1) (write_in_order f buff e)

  first_code :
      (f : File Ctx) (buff : Bytes) (buffs : List Bytes) (e : Env W)
      → let (f', e') = after_one f buff e in
        write_codes f (buff ∷ buffs) e
        ≡ (x.write f.fs f.fh buff e.world e.errno).0 ∷ write_codes f' buffs e'
  unfolding write_codes
  first_code f buff buffs e =
      ap {A = (ℤ × File Ctx) × Env W} (λ r. r.0.0 ∷ write_codes r.0.1 buffs r.1)
        (write_in_order f buff e)

  fed-some :
      (o : Option (ChecksumState Ctx)) (s : ChecksumState Ctx) (buff : Bytes)
      → o ≡ some s
      → fed d o buff ≡ some (update d s buff)
  unfolding fed
  fed-some o s buff st = rw st refl

  -- Whatever HDFS does with the writes, of which it may refuse some and take others in part: after
  -- writing one or more buffers, each at the next offset, the checksum state is that of one `Update` with
  -- the bytes of all buffers, also those that HDFS did not take, while the next offset is further by just
  -- the bytes that the codes of the calls count. The file has a checksum state with less than a chunk
  -- open, and zlib's and OpenSSL's functions may be fed in pieces.
  pub state-write_all :
      (f : File Ctx) (buff : Bytes) (buffs : List Bytes) (s : ChecksumState Ctx) (e : Env W)
      → Streams d
      → f.state ≡ some s
      → s.cur_chunk_bytes < cvmfs_chunk_size
      → let (f', _) = write_all f (buff ∷ buffs) e in
        (f'.nextoff ≡ f.nextoff + counted (write_codes f (buff ∷ buffs) e))
        × (f'.state ≡ some (update d s (buff ++ flatten buffs)))
  state-write_all f buff [] s e streams st c =
      rw (first_write f buff [] e, first_code f buff [] e, append-nil)
        (unfold write_all write_codes in
          (
            omega (arith, counted-advance f.nextoff (x.write f.fs f.fh buff e.world e.errno).0 []),
            fed-some f.state s buff st,
          ))
  state-write_all f buff (next ∷ buffs) s e streams st c =
      let (f', e') = after_one f buff e in
      let rc = (x.write f.fs f.fh buff e.world e.errno).0 in
      let (off, fin) =
        state-write_all f' next buffs (update d s buff) e' streams (fed-some f.state s buff st)
          (cur_chunk_bytes-update d s buff c) in
      rw (first_write f buff (next ∷ buffs) e, first_code f buff (next ∷ buffs) e)
        (
          off ∙ counted-advance f.nextoff rc (write_codes f' (next ∷ buffs) e'),
          fin ∙ ap some (update-append d streams s buff (next ++ flatten buffs) c),
        )

-- ===== src/Checksum/Manager/Calc/Whole.antt =====
-- `Calc` sums up the whole file.
use xrootd_hdfs.Base.{
  nothing_left, split_block, ℕ, zero, suc, ℤ, pos, neg, ◌+◌, ◌-◌, ◌≤◌, ◌<◌, Option, some, [], ◌∷◌,
  ◌++◌, Bytes, true, length, drop, slice, ltb, is_set, is_neg, eq_ℤ, ◌≡◌, ◌⊎◌, refl, sym, ap, ◌∙◌,
  inl, inr, arith, Bool-cases, append-nil, length-slice,
}
use xrootd_hdfs.Env.{Env, External, Pread, got, failed, eintr}
use xrootd_hdfs.Plugin.{emsg}
use xrootd_hdfs.Plugin.Errors.{emsg_neg}
use xrootd_hdfs.ReadAhead.{ReadBuf, reply, Result, bytes, error, answer, read_around, read, bump}
use xrootd_hdfs.ReadAhead.Pieces.{buf-answer}
use xrootd_hdfs.ReadAhead.Fill.{Answers, Serves}
use xrootd_hdfs.ReadAhead.Spending.{Leaves, Interrupts, shrinks}
use xrootd_hdfs.Checksum.State.{Digests, ChecksumState, update, cvmfs_chunk_size}
use xrootd_hdfs.Checksum.State.Chunks.{Streams}
use xrootd_hdfs.Checksum.State.Streaming.{update-append, cur_chunk_bytes-update}
use xrootd_hdfs.File.{File, read_file}
use xrootd_hdfs.Checksum.Manager.Calc.{Computed, after_block, compute, read_size}

-- What one unbuffered read gives: bytes of the file, its end, or an error.
abbrev Block : Bytes → ℕ → ℕ → ℕ → Result → Type 0
Block file offset before after (bytes []) = drop offset file ≡ []
Block file offset before after (bytes (c ∷ s)) =
    (slice file offset (length (c ∷ s)) ≡ c ∷ s) × (after ≤ before)
Block file offset before after (error rc) =
    (is_neg rc ≡ true) × (eq_ℤ rc (neg eintr) ≡ true → after < before)

block_lem :
    {W : Type 0} (file : Bytes) (budget : W → ℕ) (b : ReadBuf) (offset len before : ℕ) (r : Pread)
    (e : Env W)
    → 0 < len
    → Answers file offset len r e.errno
    → Leaves before (budget e.world) r e.errno
    → let d = answer b (reply r e.errno) e in Block file offset before (budget d.env.world) d.result
unfolding answer emsg
block_lem file budget b offset len before failed e some_len a l =
    elim (Bool-cases (eq_ℤ e.errno eintr)) [
      | inl t ↦ rw t (emsg_neg e.errno e, l)
      | inr t ↦ rw t (emsg_neg e.errno e, l)
    ]
block_lem file budget b offset len before (got []) e some_len a l =
    elim (Bool-cases (is_set e.errno)) [
      | inl t ↦ rw t (emsg_neg e.errno e, l)
      | inr t ↦ rw t (nothing_left len (drop offset file) some_len (a t))
    ]
block_lem file budget b offset len before (got (c ∷ s)) e some_len a l = (a.1, l)

module _ {Ctx : Type 0} (d : Digests Ctx) where
  -- One `Update` with a text, if there is any.
  unfoldable pub sum_up : ChecksumState Ctx → Bytes → ChecksumState Ctx
  sum_up s [] = s
  sum_up s (c ∷ text) = update d s (c ∷ text)

  sum_up-update :
      (s : ChecksumState Ctx) (block rest : Bytes)
      → Streams d
      → s.cur_chunk_bytes < cvmfs_chunk_size
      → 0 < length block
      → sum_up (update d s block) rest ≡ sum_up s (block ++ rest)
  unfolding sum_up
  sum_up-update s [] rest streams h some_block = absurd (omega arith)
  sum_up-update s (c ∷ block) [] streams h some_block =
      ap (update d s) (sym (append-nil (c ∷ block)))
  sum_up-update s (c ∷ block) (c' ∷ rest) streams h some_block =
      update-append d streams s (c ∷ block) (c' ∷ rest) h

-- How the loop ends: with an error, or behind the end of the file with all of it summed up.
abbrev pub SumsUp :
    {W Ctx : Type 0} → Digests Ctx → ChecksumState Ctx → Bytes → Computed W Ctx → Type 0
SumsUp d s text c = (is_neg c.retval ≡ true) ⊎ ((c.retval ≡ pos 0) × (c.state ≡ sum_up d s text))

carry :
    {W Ctx : Type 0} (d : Digests Ctx) (s' s : ChecksumState Ctx) (rest text : Bytes)
    → sum_up d s' rest ≡ sum_up d s text
    → (c : Computed W Ctx) → SumsUp d s' rest c
    → SumsUp d s text c
carry d s' s rest text p c (inl bad) = inl bad
carry d s' s rest text p c (inr (done, sum)) = inr (done, sum ∙ p)

module _ {W Ctx : Type 0} (x : External W) (d : Digests Ctx) (garbage fuel : ℕ) (file : Bytes)
    (budget : W → ℕ) (streams : Streams d) where
  -- One block, if the rest of the loop does its part.
  after_block_lem :
      (again : ℕ → ChecksumState Ctx → Option (Computed W Ctx)) (stop : ℤ → Computed W Ctx)
      (offset : ℕ) (s : ChecksumState Ctx) (before after rounds : ℕ) (res : Result)
      → Block file offset before after res
      → ((rc : ℤ) → (stop rc).retval ≡ rc)
      → ((rc : ℤ) → (stop rc).state ≡ s)
      → s.cur_chunk_bytes < cvmfs_chunk_size
      → length file - offset + before < suc rounds
      → ((offset' : ℕ) (s' : ChecksumState Ctx)
          → s'.cur_chunk_bytes < cvmfs_chunk_size
          → length file - offset' + after < rounds
          → (c : Computed W Ctx) × (again offset' s' ≡ some c) × SumsUp d s' (drop offset' file) c)
      → (c : Computed W Ctx) × (after_block d again stop offset s res ≡ some c)
        × SumsUp d s (drop offset file) c
  after_block_lem again stop offset s before after rounds (bytes []) b code state open_bytes enough
        next =
      (
        stop (pos 0),
        refl,
        inr (code (pos 0), state (pos 0) ∙ sym (nothing s) ∙ ap (sum_up d s) (sym b)),
      )
    where
      nothing : (s : ChecksumState Ctx) → sum_up d s [] ≡ s
      nothing s = unfold sum_up in refl
  after_block_lem again stop offset s before after rounds (bytes (c ∷ t)) b code state open_bytes
        enough next =
      let block = c ∷ t in
      let rest_lem =
        sum_up-update d s block (drop (offset + length block) file) streams open_bytes (omega arith)
        ∙ ap (sum_up d s) (split_block file offset block b.0) in
      let inside : length block ≤ length file - offset =
        omega (arith, ap length b.0, length-slice file offset (length block)) in
      let (r, p, q) =
        next (offset + length block) (update d s block)
          (cur_chunk_bytes-update d s block open_bytes)
          (shrinks (length file) offset (length block) before after rounds (omega arith) inside b.1
            enough) in
      (
        r,
        p,
        carry d (update d s block) s (drop (offset + length block) file) (drop offset file) rest_lem
            r q,
      )
  after_block_lem again stop offset s before after rounds (error rc) b code state open_bytes enough
        next =
      elim (Bool-cases (eq_ℤ rc (neg eintr))) [
        | inl retry ↦ rw (retry, after_block) (next offset s open_bytes (omega (arith, b.1 retry)))
        | inr other ↦ rw (other, after_block) (stop rc, refl, inl (ap is_neg (code rc) ∙ b.0))
      ]

  compute_round :
      (rounds : ℕ) (f : File Ctx) (offset : ℕ) (s : ChecksumState Ctx) (e : Env W)
      → f.buf.size < read_size
      → let r = read_around x f.fs f.fh f.buf offset read_size e in
        let f' = record f { buf = r.buf } in
        compute x d garbage fuel (suc rounds) f offset s e
        ≡ after_block d
            (λ offset' s'. compute x d garbage fuel rounds f' offset' s' r.env)
            (λ retval. record { retval = retval; state = s; file = f'; env = r.env })
            offset
            s
            r.result
  unfolding compute read_file read
  compute_round rounds f offset s e small =
      let unbuffered : ltb f.buf.size read_size ≡ true = ground arith in
      rw (unbuffered, compute) refl

  -- A read around the buffer, as a block; the buffer keeps its size.
  read_around_lem :
      (f : File Ctx) (offset : ℕ) (e : Env W)
      → Serves x f.fs f.fh file budget
      → Interrupts x f.fs f.fh budget
      → let r = read_around x f.fs f.fh f.buf offset read_size e in
        Block file offset (budget e.world) (budget r.env.world) r.result × (r.buf.size ≡ f.buf.size)
  unfolding read_around
  read_around_lem f offset e sv it =
      let p = x.pread f.fs f.fh offset read_size e.world (pos 0) in
      let e' = record e { world = p.1; errno = p.2 } in
      let b = record f.buf { bypassed = bump f.buf.bypassed } in
      (
        block_lem file budget b offset read_size (budget e.world) p.0 e' (omega arith)
            (sv.answers e.world (pos 0) offset read_size) (it.leaves e.world offset read_size),
        ap (λ c. c.size) (buf-answer b (reply p.0 p.2) e'),
      )

  -- The loop of `Calc` ends, with fuel for each byte of the file and each interruption, and it ends with
  -- a negative code or with the checksum state of one `Update` with all that the file has from the
  -- offset on. A file of the plugin is read by it, whose buffer is smaller than that of `Calc`; the bytes
  -- come from `hdfsPread`, in blocks of any sizes; and zlib's and OpenSSL's functions may be fed in
  -- pieces.
  pub compute_lem :
      (rounds : ℕ) (f : File Ctx) (offset : ℕ) (s : ChecksumState Ctx) (e : Env W)
      → Serves x f.fs f.fh file budget
      → Interrupts x f.fs f.fh budget
      → f.buf.size < read_size
      → s.cur_chunk_bytes < cvmfs_chunk_size
      → length file - offset + budget e.world < rounds
      → (c : Computed W Ctx) × (compute x d garbage fuel rounds f offset s e ≡ some c)
        × SumsUp d s (drop offset file) c
  compute_lem zero f offset s e sv it small open_bytes enough = absurd (omega arith)
  compute_lem (suc rounds) f offset s e sv it small open_bytes enough =
      let r = read_around x f.fs f.fh f.buf offset read_size e in
      let f' = record f { buf = r.buf } in
      let (block, size_kept) = read_around_lem f offset e sv it in
      let (c, p, q) =
        after_block_lem (λ offset' s'. compute x d garbage fuel rounds f' offset' s' r.env)
          (λ retval. record { retval = retval; state = s; file = f'; env = r.env }) offset s
          (budget e.world) (budget r.env.world) rounds r.result block (λ rc. refl) (λ rc. refl)
          open_bytes enough
          (λ offset' s' fits enough'.
            compute_lem rounds f' offset' s' r.env sv it (omega (arith, size_kept)) fits enough') in
      (c, compute_round rounds f offset s e small ∙ p, q)

-- ===== src/Checksum/Manager/Calc/Opened.antt =====
-- `Calc` from `Open` to the checksum of the whole file.
use xrootd_hdfs.Base.{
  OnSome, on_some, ℕ, zero, suc, ℤ, pos, ◌+◌, ◌-◌, ◌<◌, Option, some, [], ◌∷◌, Bytes, Bool, true,
  false, length, is_set, is_neg, ◌≡◌, refl, ap, ◌∙◌, inl, inr, arith, Option-cases,
}
use xrootd_hdfs.Env.{Env, External, N2n, o_rdonly}
use xrootd_hdfs.ReadAhead.{Result, bytes, error, read}
use xrootd_hdfs.ReadAhead.Fill.{Serves}
use xrootd_hdfs.ReadAhead.Mapping.{read-same}
use xrootd_hdfs.ReadAhead.Reliable.{Reliable, Retried, read-Retried}
use xrootd_hdfs.ReadAhead.Spending.{Interrupts}
use xrootd_hdfs.Checksum.State.{Digests, ChecksumState, create, update, finalize, get as state_get}
use xrootd_hdfs.Checksum.State.Chunks.{Streams}
use xrootd_hdfs.File.{File, new_file, open_file, close, read_file}
use xrootd_hdfs.File.Kept.{same-open_file, close_unrecorded}
use xrootd_hdfs.File.Opening.{open_file-IsValid, state-open_file}
use xrootd_hdfs.File.Soundness.{create-OpenChunk}
use xrootd_hdfs.Checksum.Manager.{root_client, set_state}
use xrootd_hdfs.Checksum.Manager.Calc.{
  Computed, after_block, compute, read_size, digests_for, finish_calc, calc_digest, calc_value,
}
use xrootd_hdfs.Checksum.Manager.Calc.Whole.{sum_up, SumsUp, compute_lem}

module _ {W Ctx : Type 0} (x : External W) (d : Digests Ctx) (garbage fuel : ℕ) where
  -- How the loop ends where no read fails: with code 0; and it does not touch the checksums of the file
  -- object, nor the Name2Name object.
  pub record Through (state : Option (ChecksumState Ctx)) (n : Option N2n) (c : Computed W Ctx)
      : Type 0 where
    pub code : c.retval ≡ pos 0
    pub kept : c.file.state ≡ state
    pub n2n : c.env.n2n ≡ n

  after_block-Through :
      (state : Option (ChecksumState Ctx)) (n : Option N2n)
      (again : ℕ → ChecksumState Ctx → Option (Computed W Ctx)) (stop : ℤ → Computed W Ctx)
      (offset : ℕ) (s : ChecksumState Ctx) (res : Result)
      → Retried res
      → Through state n (stop (pos 0))
      → ((offset' : ℕ) (s' : ChecksumState Ctx) → OnSome (Through state n) (again offset' s'))
      → OnSome (Through state n) (after_block d again stop offset s res)
  after_block-Through state n again stop offset s (bytes []) retried h next = h
  after_block-Through state n again stop offset s (bytes (c ∷ t)) retried h next =
      next (offset + length (c ∷ t)) (update d s (c ∷ t))
  after_block-Through state n again stop offset s (error rc) retried h next =
      rw (retried, after_block) (next offset s)

  compute-Through :
      (rounds : ℕ) (f : File Ctx) (offset : ℕ) (s : ChecksumState Ctx) (n : Option N2n) (e : Env W)
      → Reliable x f.fs f.fh
      → e.n2n ≡ n
      → OnSome (Through f.state n) (compute x d garbage fuel rounds f offset s e)
  unfolding compute read_file
  compute-Through zero f offset s n e rel h = tt
  compute-Through (suc rounds) f offset s n e rel h =
      elim (Option-cases (read x f.fs f.fh fuel f.buf offset read_size e)) [
        | inl out ↦ rw (out, compute) tt
        | inr (r, done) ↦
            let f' = record f { buf = r.buf } in
            let same =
              on_some (λ r. r.env.n2n ≡ e.n2n) (read x f.fs f.fh fuel f.buf offset read_size e) r
                done (read-same x f.fs f.fh fuel f.buf offset read_size e)
              ∙ h in
            let retried =
              on_some (λ r. Retried r.result) (read x f.fs f.fh fuel f.buf offset read_size e) r
                done (read-Retried x f.fs f.fh rel fuel f.buf offset read_size e) in
            rw (done, compute)
              (after_block-Through f.state n
                (λ offset' s'. compute x d garbage fuel rounds f' offset' s' r.env)
                (λ retval. record { retval = retval; state = s; file = f'; env = r.env }) offset s
                r.result retried (record { code = refl; kept = refl; n2n = same })
                (λ offset' s'. compute-Through rounds f' offset' s' n r.env rel same))
      ]

  -- `Calc` behind a loop that ended.
  calc_digest-run :
      (depth bit : ℕ) (do_set : Bool) (pfn : Bytes) (e : Env W) (c : Computed W Ctx)
      (closed : (ℤ × File Ctx) × Env W)
      → let r = open_file x d new_file pfn o_rdonly root_client garbage e in
        is_set r.0.0 ≡ false
        → compute x d garbage fuel fuel r.0.1 0 (create d (digests_for do_set bit) garbage) r.1
          ≡ some c
        → close x d (set_state x d garbage fuel depth) c.file c.env ≡ some closed
        → calc_digest x d garbage fuel depth do_set bit pfn e
          ≡ finish_calc x d garbage fuel depth bit pfn c.retval c.state closed.1
  unfolding calc_digest
  calc_digest-run depth bit do_set pfn e c closed opened p q =
      rw (opened, calc_digest, p, calc_digest, q, calc_digest) refl

  -- The end of `Calc`, behind a loop that ended with code 0, where `Set` ends.
  finish_calc_lem :
      (depth bit : ℕ) (pfn : Bytes) (retval : ℤ) (state : ChecksumState Ctx) (e : Env W)
      (r : ℤ × Env W)
      → retval ≡ pos 0
      → set_state x d garbage fuel depth (some pfn) (finalize d state) e ≡ some r
      → finish_calc x d garbage fuel depth bit pfn retval state e
        ≡ some (calc_value (state_get (finalize d state) bit), r.1)
  unfolding finish_calc
  finish_calc_lem depth bit pfn retval state e r code recorded =
      let fine : is_neg retval ≡ false = ap is_neg code in
      rw (fine, finish_calc, recorded, finish_calc) refl

  summed :
      (s : ChecksumState Ctx) (text : Bytes) (c : Computed W Ctx)
      → c.retval ≡ pos 0
      → SumsUp d s text c
      → c.state ≡ sum_up d s text
  summed s text c code (inl bad) = absurd (clash (ap is_neg code) bad)
    where
      clash : {b : Bool} → b ≡ false → ¬ (b ≡ true)
      clash p q = cc
  summed s text c code (inr (done, sum)) = sum

  -- `Calc`, from `Open` to its reply: if the file can be opened for reading, no read of it fails but by an
  -- interruption, and `Set` of the checksums of the whole file ends, with any code, wherever the Name2Name
  -- object is the same, then `Calc` ends with the requested checksum of the whole file, finalized after
  -- one `Update` with it if it is not empty, or with EIO if that checksum has no text. Fuel is given for
  -- each byte of the file and each interruption; the bytes come from `hdfsPread`, in blocks of any sizes,
  -- and zlib's and OpenSSL's functions may be fed in pieces.
  pub calc_digest_lem :
      (depth bit : ℕ) (do_set : Bool) (pfn file : Bytes) (budget : W → ℕ) (e : Env W)
      → let r = open_file x d new_file pfn o_rdonly root_client garbage e in
        let s = finalize d (sum_up d (create d (digests_for do_set bit) garbage) file) in
        is_set r.0.0 ≡ false
        → Streams d
        → Serves x r.0.1.fs r.0.1.fh file budget
        → Interrupts x r.0.1.fs r.0.1.fh budget
        → Reliable x r.0.1.fs r.0.1.fh
        → length file - 0 + budget r.1.world < fuel
        → ((e' : Env W)
            → e'.n2n ≡ e.n2n
            → (result : ℤ × Env W) × (set_state x d garbage fuel depth (some pfn) s e'
                ≡ some result))
        → (e' : Env W) × (calc_digest x d garbage fuel depth do_set bit pfn e
            ≡ some (calc_value (state_get s bit), e'))
  calc_digest_lem depth bit do_set pfn file budget e opened streams sv it rel enough sets =
      let r = open_file x d new_file pfn o_rdonly root_client garbage e in
      let s = create d (digests_for do_set bit) garbage in
      let valid =
        open_file-IsValid x d [] new_file pfn o_rdonly root_client garbage e refl
          (record { allocated = refl; small = omega arith }) in
      let (c, p, sum) =
        compute_lem x d garbage fuel file budget streams fuel r.0.1 0 s r.1 sv it
          (omega (arith, valid.small)) (create-OpenChunk x d (digests_for do_set bit) garbage)
          enough in
      let through =
        on_some (Through r.0.1.state e.n2n) (compute x d garbage fuel fuel r.0.1 0 s r.1) c p (
          compute-Through fuel r.0.1 0 s e.n2n r.1 rel
            (same-open_file x d pfn root_client garbage e)) in
      let (closed, q, same) =
        close_unrecorded x d (set_state x d garbage fuel depth) c.file c.env
          (through.kept ∙ state-open_file x d pfn root_client garbage e) in
      let whole = summed s file c through.code sum in
      let (result, recorded) = sets closed.1 (same ∙ through.n2n) in
      (
        result.1,
        calc_digest-run depth bit do_set pfn e c closed opened p q
            ∙ finish_calc_lem depth bit pfn c.retval c.state closed.1 result through.code (
                ap (λ t. set_state x d garbage fuel depth (some pfn) (finalize d t) closed.1) whole
                ∙ recorded)
            ∙ ap (λ t. some (calc_value (state_get (finalize d t) bit), result.1)) whole,
      )

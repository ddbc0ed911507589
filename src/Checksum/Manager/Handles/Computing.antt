-- ===== src/Checksum/Manager/Handles/Computing.antt =====
-- `Calc` and `Ver` close each file that they open, and with them all operations of the checksum manager.
use xrootd_hdfs.Base.{
  ℕ, zero, suc, ℤ, pos, neg, ◌+◌, Bool, true, Option, some, [], ◌∷◌, Bytes, length, is_set, is_neg,
  eq_ℤ, ◌≡◌, refl, ◌∙◌, inl, inr, Bool-cases, Option-cases, OnSome, on_some,
}
use xrootd_hdfs.Env.{Env, External, eintr, o_rdonly}
use xrootd_hdfs.Plugin.Handles.{Counts, Balances, Balances-trans}
use xrootd_hdfs.ReadAhead.{Result, bytes, error}
use xrootd_hdfs.Checksum.State.{Digests, ChecksumState, create, update, finalize}
use xrootd_hdfs.File.{File, new_file, open_file, close, read_file}
use xrootd_hdfs.File.Handles.Opened.{new_file-Holds}
use xrootd_hdfs.File.Handles.{Holds, read_file-Holds, close-kept}
use xrootd_hdfs.Checksum.Manager.{root_client, set_state, get}
use xrootd_hdfs.Checksum.Manager.Setting.{set_cks}
use xrootd_hdfs.Checksum.Manager.Listing.{list_checksums}
use xrootd_hdfs.Checksum.Manager.Calc.{
  Computed, after_block, compute, read_size, digests_for, finish_calc, calc_digest, return_digest,
  calc, ver,
}
use xrootd_hdfs.Checksum.Manager.Handles.{set_state-Settles}
use xrootd_hdfs.Checksum.Manager.Handles.Operations.{get-kept, set_cks-kept, list_checksums-kept}

module _ {W Ctx : Type 0} (x : External W) (d : Digests Ctx) (garbage fuel : ℕ) (count : W → ℕ)
    (counts : Counts x count) where
  after_block-OnSome :
      (P : Computed W Ctx → Type 0) (again : ℕ → ChecksumState Ctx → Option (Computed W Ctx))
      (stop : ℤ → Computed W Ctx) (offset : ℕ) (s : ChecksumState Ctx) (res : Result)
      → ((rc : ℤ) → P (stop rc))
      → ((offset' : ℕ) (s' : ChecksumState Ctx) → OnSome P (again offset' s'))
      → OnSome P (after_block d again stop offset s res)
  after_block-OnSome P again stop offset s (bytes []) h next = h (pos 0)
  after_block-OnSome P again stop offset s (bytes (c ∷ t)) h next =
      next (offset + length (c ∷ t)) (update d s (c ∷ t))
  after_block-OnSome P again stop offset s (error rc) h next =
      elim (Bool-cases (eq_ℤ rc (neg eintr))) [
        | inl retry ↦ rw (retry, after_block) (next offset s)
        | inr other ↦ rw (other, after_block) (h rc)
      ]

  compute-Holds :
      (rounds : ℕ) (f : File Ctx) (offset : ℕ) (s : ChecksumState Ctx) (others : ℕ) (e : Env W)
      → Holds count others f e
      → OnSome (λ c. Holds count others c.file c.env) (compute x d garbage fuel rounds f offset s e)
  unfolding compute
  compute-Holds zero f offset s others e h = tt
  compute-Holds (suc rounds) f offset s others e h =
      elim (Option-cases (read_file x d fuel f offset read_size e)) [
        | inl out ↦ rw (out, compute) tt
        | inr ((r, f'), p) ↦
            let k =
              on_some (λ r. Holds count others r.1 r.0.env)
                (read_file x d fuel f offset read_size e) (r, f') p
                (read_file-Holds x d count counts f fuel offset read_size others e h) in
            rw (p, compute)
              (after_block-OnSome (λ c. Holds count others c.file c.env)
                (λ offset' s'. compute x d garbage fuel rounds f' offset' s' r.env)
                (λ retval. record { retval = retval; state = s; file = f'; env = r.env }) offset s
                r.result (λ rc. k)
                (λ offset' s'. compute-Holds rounds f' offset' s' others r.env k))
      ]

  finish_calc-kept :
      (depth bit : ℕ) (pfn : Bytes) (retval : ℤ) (s : ChecksumState Ctx) (e : Env W)
      → Balances count e (finish_calc x d garbage fuel depth bit pfn retval s e)
  unfolding finish_calc
  finish_calc-kept depth bit pfn retval s e = elim (Bool-cases (is_neg retval)) [
    | inl failed ↦ rw (failed, finish_calc) refl
    | inr fine ↦
        elim (Option-cases (set_state x d garbage fuel depth (some pfn) (finalize d s) e)) [
          | inl out ↦ rw (fine, finish_calc, out, finish_calc) tt
          | inr (r, p) ↦
              rw (fine, finish_calc, p, finish_calc)
                (on_some (λ r. count r.1.world ≡ count e.world)
                  (set_state x d garbage fuel depth (some pfn) (finalize d s) e) r p
                  (set_state-Settles x d garbage fuel count counts depth (some pfn) (finalize d s)
                    e))
        ]
  ]

  calc_digest-kept :
      (depth bit : ℕ) (do_set : Bool) (pfn : Bytes) (e : Env W)
      → Balances count e (calc_digest x d garbage fuel depth do_set bit pfn e)
  unfolding calc_digest
  calc_digest-kept depth bit do_set pfn e =
      let ((rc, f), e1) = open_file x d new_file pfn o_rdonly root_client garbage e in
      let start = create d (digests_for do_set bit) garbage in
      let set = set_state x d garbage fuel depth in
      let (s, failed) = new_file-Holds x d count counts pfn o_rdonly root_client garbage e in
      elim (Bool-cases (is_set rc)) [
        | inl bad ↦ rw (bad, calc_digest) (failed bad)
        | inr opened ↦ elim (Option-cases (compute x d garbage fuel fuel f 0 start e1)) [
          | inl out ↦ rw (opened, calc_digest, out, calc_digest) tt
          | inr (c, p) ↦
              let held =
                on_some (λ c. Holds count (count e.world) c.file c.env)
                  (compute x d garbage fuel fuel f 0 start e1) c p
                  (compute-Holds fuel f 0 start (count e.world) e1 s) in
              elim (Option-cases (close x d set c.file c.env)) [
                | inl out ↦ rw (opened, calc_digest, p, calc_digest, out, calc_digest) tt
                | inr ((ret, e2), q) ↦
                    let kept =
                      on_some (λ r. count r.1.world ≡ count e.world) (close x d set c.file c.env)
                        (ret, e2) q
                        (close-kept x d count counts c.file set (count e.world) c.env
                          (set_state-Settles x d garbage fuel count counts depth) held) in
                    rw (opened, calc_digest, p, calc_digest, q, calc_digest)
                      (Balances-trans count e e2
                        (finish_calc x d garbage fuel depth bit pfn c.retval c.state e2) kept
                        (finish_calc-kept depth bit pfn c.retval c.state e2))
              ]
        ]
      ]

  calc-kept :
      (depth : ℕ) (there do_set : Bool) (name pfn : Bytes) (e : Env W)
      → Balances count e (calc x d garbage fuel depth there do_set name pfn e)
  unfolding calc
  calc-kept depth there do_set name pfn e = elim (Option-cases (return_digest name)) [
    | inl unknown ↦ rw (unknown, calc) refl
    | inr (bit, known) ↦ elim (Bool-cases there) [
      | inl loaded ↦ rw (known, calc, loaded) (calc_digest-kept depth bit do_set pfn e)
      | inr unloaded ↦ rw (known, calc, unloaded) refl
    ]
  ]

  ver-kept :
      (depth valu_size n : ℕ) (there : Bool) (default on_disk wanted pfn : Bytes)
      (to_value : Option Bytes → Bytes) (e : Env W)
      → Balances count e
          (ver x d garbage fuel depth there valu_size default on_disk to_value wanted n pfn e)
  unfolding ver
  ver-kept depth valu_size n there default on_disk wanted pfn to_value e =
      elim (Option-cases
        (get x d garbage fuel depth there valu_size default (some on_disk) pfn e)) [
          | inl out ↦ rw (out, ver) tt
          | inr (((rc, text), e1), p) ↦
              let found =
                on_some (λ r. count r.1.world ≡ count e.world)
                  (get x d garbage fuel depth there valu_size default (some on_disk) pfn e)
                  ((rc, text), e1) p
                  (get-kept x d garbage fuel count counts depth valu_size there default pfn
                    (some on_disk) e) in
              elim (Bool-cases (is_set rc)) [
                | inr fine ↦ rw (p, ver, fine, ver) found
                | inl missing ↦
                    elim (Option-cases (calc x d garbage fuel depth there true on_disk pfn e1)) [
                      | inl out ↦ rw (p, ver, missing, ver, out, ver) tt
                      | inr (((rc', text'), e2), q) ↦
                          rw (p, ver, missing, ver, q, ver)
                            (on_some (λ r. count r.1.world ≡ count e1.world)
                                (calc x d garbage fuel depth there true on_disk pfn e1)
                                ((rc', text'), e2) q (calc-kept depth there true on_disk pfn e1)
                              ∙ found)
                    ]
              ]
        ]

  -- If `Get`, `Set` of a record, `List`, `Calc` or `Ver` ends, there are as many open files in HDFS as
  -- before: each closes what it opens, on every path and with failures at any call, and so do the writes
  -- of checksum files that `Close` makes on the way.
  pub manager-Balances :
      (depth valu_size n : ℕ) (there do_set : Bool) (default on_disk name value pfn : Bytes)
      (requested : Option Bytes) (to_value : Option Bytes → Bytes) (e : Env W)
      → Balances count e (get x d garbage fuel depth there valu_size default requested pfn e)
        × Balances count e (set_cks x d garbage fuel depth there (some pfn) name value e)
        × Balances count e (list_checksums x d garbage fuel depth there (some pfn) n valu_size e)
        × Balances count e (calc x d garbage fuel depth there do_set name pfn e)
        × Balances count e
            (ver x d garbage fuel depth there valu_size default on_disk to_value value n pfn e)
  manager-Balances depth valu_size n there do_set default on_disk name value pfn requested to_value
        e =
      (
        get-kept x d garbage fuel count counts depth valu_size there default pfn requested e,
        set_cks-kept x d garbage fuel count counts depth there (some pfn) name value e,
        list_checksums-kept x d garbage fuel count counts depth n valu_size there (some pfn) e,
        calc-kept depth there do_set name pfn e,
        ver-kept depth valu_size n there default on_disk value pfn to_value e,
      )

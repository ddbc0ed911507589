-- ===== src/Checksum/Manager/Saving.antt =====
-- `SetMultiple`, from `Open` of the checksum file to its code, all calls included.
mod Tests
use xrootd_hdfs.Base.{
  ℕ, zero, suc, ℤ, pos, ◌+◌, ◌<◌, Option, none, some, List, [], ◌++◌, Bytes, Bool, true, false,
  length, is_neg, is_set, ◌≡◌, ◌⊎◌, refl, sym, ap, ◌∙◌, inl, inr, arith, if◌then◌else◌, on_some,
  All, ◌^◌,
}
use mathlib.Core.Path.{subst}
use xrootd_hdfs.Env.{Env, External, o_wronly, o_rdonly}
use xrootd_hdfs.Plugin.{get_real_path}
use xrootd_hdfs.Checksum.State.{Digests, ChecksumState}
use xrootd_hdfs.Checksum.Entries.{ChecksumValue, render}
use xrootd_hdfs.Checksum.Entries.RoundTrip.{IsEntry}
use xrootd_hdfs.ReadAhead.Fill.{Serves}
use xrootd_hdfs.ReadAhead.Reliable.{Reliable}
use xrootd_hdfs.ReadAhead.Spending.{Interrupts}
use xrootd_hdfs.File.{File, new_file, open_file, close, is_cksums, fed}
use xrootd_hdfs.File.Recording.{state-open_writer, close_kept, nextoff-open_file}
use xrootd_hdfs.Checksum.Manager.{
  Loop, root_client, get_checksum_filename, values_of, write_contents, set_multiple, get,
  find_value, requested_name,
}
use xrootd_hdfs.Checksum.Manager.Writing.{Writer, Wrote, write_contents_lem}
use xrootd_hdfs.Checksum.Manager.Objects.{Keeps, write_contents-Keeps}
use xrootd_hdfs.Checksum.Manager.Lookup.{found_reply}
use xrootd_hdfs.Checksum.Manager.Reading.{get-found_reply}

-- How `SetMultiple` ends: with a negative code; or with code 0 and the text of the checksums in the
-- file.
abbrev pub Saved : Bytes → ℤ → Bytes → Type 0
Saved whole rc written = (is_neg rc ≡ true) ⊎ ((rc ≡ pos 0) × (written ≡ whole))

module _ {W Ctx : Type 0} (x : External W) (d : Digests Ctx) (garbage fuel : ℕ) where
  fed-none : (s : Option (ChecksumState Ctx)) (buff : Bytes) → s ≡ none → fed d s buff ≡ none
  unfolding fed
  fed-none none buff p = refl
  fed-none (some s) buff p = absurd (ground arith)

  -- The code of `SetMultiple` for a loop that ended.
  abbrev code_of : ℤ → ℤ
  code_of retval = if is_neg retval then retval else pos 0

  set_multiple-run :
      (depth : ℕ) (pfn : Option Bytes) (values : List ChecksumValue) (e : Env W) (l : Loop W Ctx)
      (closed : (ℤ × File Ctx) × Env W)
      → let r = open_file x d new_file (get_checksum_filename pfn) o_wronly root_client garbage e in
        let set = λ (name : Option Bytes) (s : ChecksumState Ctx) (e2 : Env W).
          set_multiple x d garbage fuel depth name (values_of s) e2 in
        is_set r.0.0 ≡ false
        → write_contents x d garbage fuel fuel r.0.1 0 (render values) r.1 ≡ some l
        → close x d set l.file l.env ≡ some closed
        → set_multiple x d garbage fuel (suc depth) pfn values e ≡ some (code_of l.retval, closed.1)
  unfolding set_multiple
  set_multiple-run depth pfn values e l closed opened p q =
      rw (opened, set_multiple, p, set_multiple, q, set_multiple) refl

  code_of-Saved :
      (whole written after : Bytes) (retval : ℤ)
      → after ≡ written
      → (is_neg retval ≡ true) ⊎ ((is_neg retval ≡ false) × (written ≡ whole))
      → Saved whole (code_of retval) after
  code_of-Saved whole written after retval p (inl bad) = rw bad (inl bad)
  code_of-Saved whole written after retval p (inr (fine, all)) = rw fine (inr (refl, p ∙ all))

  -- `SetMultiple` ends, if its file can be opened, is empty then and stands under /cksums, on an HDFS
  -- whose writes take a beginning of what they are given, at least a byte of it, or give -1, with fuel for
  -- each byte of the text: with a negative code; or with code 0, and then the file holds the text of the
  -- checksums.
  pub set_multiple_lem :
      (depth : ℕ) (pfn : Option Bytes) (values : List ChecksumValue) (e : Env W) (file : W → Bytes)
      → let r = open_file x d new_file (get_checksum_filename pfn) o_wronly root_client garbage e in
        is_set r.0.0 ≡ false
        → is_cksums (get_real_path x (get_checksum_filename pfn) e).0 ≡ true
        → Writer x r.0.1.fs r.0.1.fh file
        → file r.1.world ≡ []
        → length (render values) < fuel
        → (rc : ℤ) × (e' : Env W) × (set_multiple x d garbage fuel (suc depth) pfn values e
            ≡ some (rc, e'))
          × Saved (render values) rc (file e'.world)
  set_multiple_lem depth pfn values e file opened cksums writer empty enough =
      let name = get_checksum_filename pfn in
      let r = open_file x d new_file name o_wronly root_client garbage e in
      let set = λ (name : Option Bytes) (s : ChecksumState Ctx) (e2 : Env W).
        set_multiple x d garbage fuel depth name (values_of s) e2 in
      let (l, p, wrote) =
        write_contents_lem x d garbage fuel file (render values) fuel r.0.1 (render values) r.1
          writer (ap (λ t. t ++ render values) empty) enough in
      let p0 =
        ap (λ k. write_contents x d garbage fuel fuel r.0.1 k (render values) r.1)
          (sym (nextoff-open_file x d name o_wronly root_client garbage e))
        ∙ p in
      let kept =
        on_some (λ l. Keeps (λ s. s ≡ none) r.0.1 r.1 l.file l.env)
          (write_contents x d garbage fuel fuel r.0.1 0 (render values) r.1) l p0
          (write_contents-Keeps x d garbage fuel (λ s. s ≡ none) fed-none fuel r.0.1 0
            (render values) r.1 (state-open_writer x d name root_client garbage e cksums)) in
      let (closed, q, left) =
        close_kept x d file set l.file l.env kept.state
          (λ w n h. ap (λ g. file (x.close_file g h w n).1) kept.fs ∙ writer.closes w n h) in
      (
        code_of l.retval,
        closed.1,
        set_multiple-run depth pfn values e l closed opened p0 q,
        code_of-Saved (render values) (file l.env.world) (file closed.1.world) l.retval left
            wrote.outcome,
      )

  some_pair {ℓ κ} :
      {A : Type ℓ} {B : Type κ} (r s : A × B) → some r ≡ some s → (r.0 ≡ s.0) × (r.1 ≡ s.1)
  some_pair r s p =
      let q = ap (λ o. elim o [ none ↦ r | some t ↦ t ]) p in (ap (λ t. t.0) q, ap (λ t. t.1) q)

  -- `Get` behind a `SetMultiple` that gave code 0. The checksum file can be opened for writing, stands
  -- under /cksums and is empty then, and HDFS takes a beginning of each write, at least a byte, or gives
  -- -1. If `Get` can open the file as it was left, and no read of it fails but by an interruption, then
  -- `Get` ends with the reply for the last entry with the requested name among those that were set. Names
  -- and values are words, and fuel is given for the read-ahead buffer, each byte of the file and each
  -- interruption.
  pub get-set_multiple :
      (depth valu_size : ℕ) (default pfn : Bytes) (name : Option Bytes)
      (values : List ChecksumValue) (e e1 : Env W) (file : W → Bytes) (budget : W → ℕ)
      → let checksum_pfn = get_checksum_filename (some pfn) in
        let r = open_file x d new_file checksum_pfn o_wronly root_client garbage e in
        let r1 = open_file x d new_file checksum_pfn o_rdonly root_client garbage e1 in
        is_set r.0.0 ≡ false
        → is_cksums (get_real_path x checksum_pfn e).0 ≡ true
        → Writer x r.0.1.fs r.0.1.fh file
        → file r.1.world ≡ []
        → set_multiple x d garbage fuel (suc depth) (some pfn) values e ≡ some (pos 0, e1)
        → is_set r1.0.0 ≡ false
        → Serves x r1.0.1.fs r1.0.1.fh (file e1.world) budget
        → Interrupts x r1.0.1.fs r1.0.1.fh budget
        → Reliable x r1.0.1.fs r1.0.1.fh
        → All IsEntry values
        → length (render values) < 2 ^ 63
        → 32768 + length (render values) + budget r1.1.world < fuel
        → (e2 : Env W) × (get x d garbage fuel depth true valu_size default name pfn e1
            ≡ some (
                found_reply x valu_size pfn e2
                  (find_value (requested_name name default) values [])))
  get-set_multiple depth valu_size default pfn name values e e1 file budget opened cksums writer
        empty saved reopened sv it rel entries small enough =
      let (rc, e', p, result) =
        set_multiple_lem depth (some pfn) values e file opened cksums writer empty (omega arith) in
      let (code, same) = some_pair (rc, e') (pos 0, e1) (sym p ∙ saved) in
      by_result rc e' code same result
    where
      checksum_pfn : Bytes
      checksum_pfn = get_checksum_filename (some pfn)

      r : (ℤ × File Ctx) × Env W
      r = open_file x d new_file checksum_pfn o_wronly root_client garbage e

      r1 : (ℤ × File Ctx) × Env W
      r1 = open_file x d new_file checksum_pfn o_rdonly root_client garbage e1

      by_result :
          (rc : ℤ) (e' : Env W)
          → rc ≡ pos 0
          → e' ≡ e1
          → Saved (render values) rc (file e'.world)
          → (e2 : Env W) × (get x d garbage fuel depth true valu_size default name pfn e1
              ≡ some (
                  found_reply x valu_size pfn e2
                    (find_value (requested_name name default) values [])))
      by_result rc e' code same (inl bad) = absurd (ground (arith, sym (ap is_neg code) ∙ bad))
      by_result rc e' code same (inr (zero_code, all)) =
          let written : file e1.world ≡ render values =
            ap (λ (t : Env W). file t.world) (sym same) ∙ all in
          get-found_reply x d garbage fuel depth valu_size default pfn name e1 values budget
            reopened (subst (λ t. Serves x r1.0.1.fs r1.0.1.fh t budget) written sv) it rel entries
            small enough

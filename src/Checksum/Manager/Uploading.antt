-- ===== src/Checksum/Manager/Uploading.antt =====
-- A file from its first `Write` through `Close` to `Get` of its checksum.
mod Tests
use xrootd_hdfs.Base.{
  ℕ, suc, ℤ, pos, ◌+◌, ◌<◌, ◌^◌, Option, none, some, List, [], ◌∷◌, ◌++◌, Bytes, true, false,
  length, is_set, ◌≡◌, ◌⊎◌, refl, sym, ap, ◌∙◌, inl, inr,
}
use mathlib.Core.Path.{subst}
use xrootd_hdfs.Env.{Env, External, o_rdonly, o_wronly}
use xrootd_hdfs.Plugin.{get_real_path}
use xrootd_hdfs.ReadAhead.Fill.{Serves}
use xrootd_hdfs.ReadAhead.Reliable.{Reliable}
use xrootd_hdfs.ReadAhead.Spending.{Interrupts}
use xrootd_hdfs.Checksum.State.{
  Digests, ChecksumState, create, update, finalize, all_bits, get as state_get,
}
use xrootd_hdfs.Checksum.State.Graft.{update_all}
use xrootd_hdfs.Checksum.State.Chunks.{Streams}
use xrootd_hdfs.Checksum.State.Words.{recorded, recorded-IsTextual}
use xrootd_hdfs.Checksum.Entries.{render}
use xrootd_hdfs.File.{File, new_file, open_file, close, close_handle, is_cksums}
use xrootd_hdfs.File.Recording.{close_records}
use xrootd_hdfs.File.Soundness.{create-OpenChunk}
use xrootd_hdfs.File.Writes.{flatten, write_all, WritesAll, write_all_lem, fname-write_all}
use xrootd_hdfs.Checksum.Manager.{
  root_client, get_checksum_filename, values_of, set_multiple, set_state, get, find_value,
  requested_name,
}
use xrootd_hdfs.Checksum.Manager.Recorded.{
  Recorded, name_of, bit_of, cksum, adler32, crc32, md5, cvmfs, values_of-IsEntry,
  find_value-values_of,
}
use xrootd_hdfs.Checksum.Manager.Lookup.{found_reply}
use xrootd_hdfs.Checksum.Manager.Writing.{Writer}
use xrootd_hdfs.Checksum.Manager.Saving.{get-set_multiple}

-- A name in the record is the name that is looked for.
requested_name-name_of :
    (k : Recorded) (default : Bytes) → requested_name (some (name_of k)) default ≡ name_of k
unfolding requested_name
requested_name-name_of cksum default = refl
requested_name-name_of adler32 default = refl
requested_name-name_of crc32 default = refl
requested_name-name_of md5 default = refl
requested_name-name_of cvmfs default = refl

module _ {W Ctx : Type 0} (x : External W) (d : Digests Ctx) (garbage fuel : ℕ) where
  -- From `Write` through `Close` to `Get`. An object with a new checksum state is written in one or more
  -- buffers one behind the other, each of which HDFS takes whole, and its handle is closed with code 0.
  -- Its checksum file can be opened, stands under /cksums and is empty then; HDFS takes a beginning of
  -- each write to it, at least a byte, or gives -1; and `Set` of the checksums of the whole content gives
  -- code 0. Then `Close` gives code 0, with that `Set` as its last call. If `Get` opens the checksum file
  -- as it was left, and no read of it fails but by an interruption, then for any of the five checksums
  -- `Get` ends with the reply for the checksum of the whole content. zlib's and OpenSSL's functions may be
  -- fed in pieces, and fuel is given for the read-ahead buffer, each byte of the checksum file and each
  -- interruption.
  pub get-close :
      (k : Recorded) (valu_size depth : ℕ) (default pfn buff : Bytes) (buffs : List Bytes)
      (f : File Ctx) (e e1 e2 : Env W) (file : W → Bytes) (budget : W → ℕ)
      → let (f', e') = write_all x d f (buff ∷ buffs) e in
        let s = recorded d all_bits garbage ((buff ++ flatten buffs) ∷ []) in
        let checksum_pfn = get_checksum_filename (some pfn) in
        let r = open_file x d new_file checksum_pfn o_wronly root_client garbage e1 in
        let r1 = open_file x d new_file checksum_pfn o_rdonly root_client garbage e2 in
        Streams d
        → WritesAll x d f
        → f.state ≡ some (create d all_bits garbage)
        → f.fname ≡ some pfn
        → close_handle x d f' e' ≡ (pos 0, e1)
        → is_set r.0.0 ≡ false
        → is_cksums (get_real_path x checksum_pfn e1).0 ≡ true
        → Writer x r.0.1.fs r.0.1.fh file
        → file r.1.world ≡ []
        → set_state x d garbage fuel (suc depth) (some pfn) s e1 ≡ some (pos 0, e2)
        → is_set r1.0.0 ≡ false
        → Serves x r1.0.1.fs r1.0.1.fh (file e2.world) budget
        → Interrupts x r1.0.1.fs r1.0.1.fh budget
        → Reliable x r1.0.1.fs r1.0.1.fh
        → length (render (values_of s)) < 2 ^ 63
        → 32768 + length (render (values_of s)) + budget r1.1.world < fuel
        → (f'' : File Ctx) × (close x d (set_state x d garbage fuel (suc depth)) f' e'
            ≡ some ((pos 0, f''), e2))
          × ((e3 : Env W) × (get x d garbage fuel depth true valu_size default
                  (some (name_of k))
                  pfn
                  e2
                ≡ some (found_reply x valu_size pfn e3 (state_get s (bit_of k)))))
  unfolding set_state update_all
  get-close k valu_size depth default pfn buff buffs f e e1 e2 file budget streams whole fresh named
        closed opened cksums writer empty saved reopened sv it rel small enough =
      let (f', e') = write_all x d f (buff ∷ buffs) e in
      let content = buff ++ flatten buffs in
      let s = recorded d all_bits garbage (content ∷ []) in
      let (off, fed) =
        write_all_lem x d f buff buffs (create d all_bits garbage) e streams whole fresh
          (create-OpenChunk x d all_bits garbage) in
      let (f'', p) =
        close_records x d (set_state x d garbage fuel (suc depth)) f'
          (update d (create d all_bits garbage) content) e' e1 e2 (pos 0) fed closed
          (ap (λ n. set_state x d garbage fuel (suc depth) n s e1)
              (fname-write_all x d f (buff ∷ buffs) e ∙ named)
            ∙ saved) in
      let value =
        ap (λ n. find_value n (values_of s) []) (requested_name-name_of k default)
        ∙ find_value-values_of s k in
      (
        f'',
        p,
        subst
            (λ v.
              (e3 : Env W) × (get x d garbage fuel depth true valu_size default (some (name_of k))
                  pfn e2
                ≡ some (found_reply x valu_size pfn e3 v)))
            value
            (get-set_multiple x d garbage fuel depth valu_size default pfn (some (name_of k))
              (values_of s) e1 e2 file budget opened cksums writer empty saved reopened sv it rel
              (values_of-IsEntry s (recorded-IsTextual d all_bits garbage (content ∷ []))) small
              enough),
      )

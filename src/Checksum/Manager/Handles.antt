-- ===== src/Checksum/Manager/Handles.antt =====
-- The checksum manager closes each file that it opens.
mod Tests
pub mod Operations
pub mod Computing
use xrootd_hdfs.Base.{
  ℕ, zero, suc, ℤ, pos, neg, ◌+◌, Bool, true, false, Option, none, some, List, [], ◌∷◌, Bytes,
  length, is_set, is_neg, eq_ℤ, ◌≡◌, refl, ◌∙◌, inl, inr, Bool-cases, Option-cases, OnSome,
  OnSome-weaken, on_some, ltb,
}
use xrootd_hdfs.Env.{Env, External, eintr, enoent, o_rdonly, o_wronly}
use xrootd_hdfs.Plugin.Handles.{Counts}
use xrootd_hdfs.Sys.Handles.{unlink-Keeps}
use xrootd_hdfs.ReadAhead.{Done, Result, bytes, error}
use xrootd_hdfs.Checksum.State.{Digests, ChecksumState}
use xrootd_hdfs.Checksum.Entries.{ChecksumValue, parse, render}
use xrootd_hdfs.File.{File, new_file, open_file, close, read_file, write}
use xrootd_hdfs.File.Handles.Opened.{new_file-Holds}
use xrootd_hdfs.File.Handles.{Holds, Settles, read_file-Holds, write-Holds, close-kept}
use xrootd_hdfs.Checksum.Manager.{
  Loop, root_client, get_checksum_filename, values_of, add_block, read_contents, write_contents,
  set_multiple, set_state, get_file_contents, get_from, put_value, del, get, find_value,
  requested_name,
}
use xrootd_hdfs.Checksum.Manager.Objects.{write_rest-OnSome}

module _ {W Ctx : Type 0} (x : External W) (d : Digests Ctx) (garbage fuel : ℕ) (count : W → ℕ)
    (counts : Counts x count) where
  -- A function's end: what it returns behind `Close`.
  pub give_back :
      {A : Type 0} (n : ℕ) (v : A) (o : Option ((ℤ × File Ctx) × Env W))
      → OnSome (λ r. count r.1.world ≡ n) o
      → OnSome {A = A × Env W}
          (λ r. count r.1.world ≡ n)
          (elim o [ none ↦ none | some (_, e2) ↦ some (v, e2) ])
  give_back n v none h = tt
  give_back n v (some r) h = h

  write_contents-Holds :
      (rounds : ℕ) (f : File Ctx) (offset : ℕ) (rest : Bytes) (others : ℕ) (e : Env W)
      → Holds count others f e
      → OnSome
          (λ l. Holds count others l.file l.env)
          (write_contents x d garbage fuel rounds f offset rest e)
  unfolding write_contents
  write_contents-Holds zero f offset rest others e h = tt
  write_contents-Holds (suc rounds) f offset rest others e h =
      let ((retval, f'), e') = write x d f rest offset e in
      let s = write-Holds x d count counts f rest offset others e h in
      write_rest-OnSome x d garbage fuel (λ s. Unit) (λ s b u. tt)
        (λ l. Holds count others l.file l.env)
        (λ offset' rest'. write_contents x d garbage fuel rounds f' offset' rest' e')
        (λ rest'. record { retval = retval; text = rest'; file = f'; env = e' }) offset rest retval
        (λ offset' rest'. write_contents-Holds rounds f' offset' rest' others e' s) (λ left. s)

  -- `SetMultiple`, with all calls that it makes of itself through `Close`, leaves as many files open as
  -- it finds.
  pub set_multiple-kept :
      (depth : ℕ) (pfn : Option Bytes) (values : List ChecksumValue) (e : Env W)
      → OnSome
          (λ r. count r.1.world ≡ count e.world)
          (set_multiple x d garbage fuel depth pfn values e)
  unfolding set_multiple
  set_multiple-kept zero pfn values e = tt
  set_multiple-kept (suc depth) pfn values e =
      let r = open_file x d new_file (get_checksum_filename pfn) o_wronly root_client garbage e in
      let set = λ (name : Option Bytes) (s : ChecksumState Ctx) (e2 : Env W).
        set_multiple x d garbage fuel depth name (values_of s) e2 in
      let settles : Settles count set =
        λ name s e2. set_multiple-kept depth name (values_of s) e2 in
      let (s, failed) =
        new_file-Holds x d count counts (get_checksum_filename pfn) o_wronly root_client garbage
          e in
      elim (Bool-cases (is_set r.0.0)) [
        | inl bad ↦ rw (bad, set_multiple) (failed bad)
        | inr opened ↦
            elim (Option-cases (write_contents x d garbage fuel fuel r.0.1 0 (render values) r.1)) [
              | inl out ↦ rw (opened, set_multiple, out, set_multiple) tt
              | inr (l, p) ↦
                  let held =
                    on_some (λ l. Holds count (count e.world) l.file l.env)
                      (write_contents x d garbage fuel fuel r.0.1 0 (render values) r.1) l p
                      (write_contents-Holds fuel r.0.1 0 (render values) (count e.world) r.1 s) in
                  rw (opened, set_multiple, p, set_multiple)
                    (give_back (count e.world) _ (close x d set l.file l.env)
                      (close-kept x d count counts l.file set (count e.world) l.env settles held))
            ]
      ]

  pub set_state-Settles : (depth : ℕ) → Settles count (set_state x d garbage fuel depth)
  unfolding set_state
  set_state-Settles depth name s e = set_multiple-kept depth name (values_of s) e

  add_block-OnSome :
      (P : Loop W Ctx → Type 0) (again : ℕ → Bytes → Option (Loop W Ctx)) (stop : ℤ → Loop W Ctx)
      (offset : ℕ) (text : Bytes) (res : Result)
      → ((offset' : ℕ) (text' : Bytes) → OnSome P (again offset' text'))
      → ((rc : ℤ) → P (stop rc))
      → OnSome P (add_block again stop offset text res)
  add_block-OnSome P again stop offset text (bytes []) next stopped = stopped (pos 0)
  add_block-OnSome P again stop offset text (bytes (c ∷ s)) next stopped = next _ _
  add_block-OnSome P again stop offset text (error rc) next stopped =
      elim (Bool-cases (eq_ℤ rc (neg eintr))) [
        | inl retry ↦ rw (retry, add_block) (next offset text)
        | inr other ↦ rw (other, add_block) (stopped rc)
      ]

  read_contents-Holds :
      (rounds : ℕ) (f : File Ctx) (offset : ℕ) (text : Bytes) (others : ℕ) (e : Env W)
      → Holds count others f e
      → OnSome
          (λ l. Holds count others l.file l.env)
          (read_contents x d garbage fuel rounds f offset text e)
  unfolding read_contents
  read_contents-Holds zero f offset text others e h = tt
  read_contents-Holds (suc rounds) f offset text others e h =
      elim (Option-cases (read_file x d fuel f offset 4095 e)) [
        | inl out ↦ rw (out, read_contents) tt
        | inr ((r, f'), p) ↦
            let s =
              on_some (λ r. Holds count others r.1 r.0.env) (read_file x d fuel f offset 4095 e)
                (r, f') p (read_file-Holds x d count counts f fuel offset 4095 others e h) in
            rw (p, read_contents)
              (add_block-OnSome (λ l. Holds count others l.file l.env)
                (λ offset' text'. read_contents x d garbage fuel rounds f' offset' text' r.env)
                (λ retval. record { retval = retval; text = text; file = f'; env = r.env }) offset
                text r.result
                (λ offset' text'. read_contents-Holds rounds f' offset' text' others r.env s)
                (λ rc. s))
      ]

  pub get_file_contents-kept :
      (depth : ℕ) (there : Bool) (pfn : Option Bytes) (e : Env W)
      → OnSome
          (λ r. count r.1.world ≡ count e.world)
          (get_file_contents x d garbage fuel depth there pfn e)
  unfolding get_file_contents
  get_file_contents-kept depth false pfn e = refl
  get_file_contents-kept depth true pfn e =
      let r = open_file x d new_file (get_checksum_filename pfn) o_rdonly root_client garbage e in
      let set = set_state x d garbage fuel depth in
      let (s, failed) =
        new_file-Holds x d count counts (get_checksum_filename pfn) o_rdonly root_client garbage
          e in
      elim (Bool-cases (is_set r.0.0)) [
        | inl bad ↦ rw (bad, get_file_contents) (failed bad)
        | inr opened ↦ elim (Option-cases (read_contents x d garbage fuel fuel r.0.1 0 [] r.1)) [
          | inl out ↦ rw (opened, get_file_contents, out, get_file_contents) tt
          | inr (l, p) ↦
              let held =
                on_some (λ l. Holds count (count e.world) l.file l.env)
                  (read_contents x d garbage fuel fuel r.0.1 0 [] r.1) l p
                  (read_contents-Holds fuel r.0.1 0 [] (count e.world) r.1 s) in
              rw (opened, get_file_contents, p, get_file_contents)
                (give_back (count e.world) _ (close x d set l.file l.env) (
                  close-kept x d count counts l.file set (count e.world) l.env
                    (set_state-Settles depth) held))
        ]
      ]

-- ===== src/Checksum/Manager/Nesting.antt =====
-- `SetMultiple` through `XrdHdfsFile::Close` of its own checksum file.
mod Tests
use xrootd_hdfs.Base.{
  ℕ, zero, suc, ℤ, pos, ◌+◌, ◌<◌, ◌==◌, Option, none, some, List, [], Bytes, drop, Bool, true,
  false, length, is_set, ◌≡◌, refl, sym, ap, ◌∙◌, inl, inr, Bool-cases, arith, if◌then◌else◌,
}
use xrootd_hdfs.Env.{Env, External, N2n, o_wronly}
use xrootd_hdfs.Plugin.{max_path_len}
use xrootd_hdfs.Checksum.State.{Digests, ChecksumState, create, update, all_bits}
use xrootd_hdfs.Checksum.Entries.{ChecksumValue, render}
use xrootd_hdfs.File.{File, new_file, open_file, write, is_cksums, fed, advance}
use xrootd_hdfs.File.Mapped.{
  Succeeds, Opens, open_file-Opens, new_state-inside, new_state-outside, close_hands_on, close_ends,
}
use xrootd_hdfs.File.Recording.{nextoff-open_file}
use xrootd_hdfs.Checksum.Manager.{
  root_client, get_checksum_filename, values_of, write_contents, set_multiple,
}
use xrootd_hdfs.Checksum.Manager.Writing.{write_rest-all}

-- The Name2Name object maps the name of the path's checksum file to one that does not stand under
-- /cksums, the name of the checksum file of that again, and so on, `levels` times; the next one it maps to
-- a name under /cksums.
abbrev pub Nests : N2n → ℕ → Option Bytes → Type 0
Nests the_n2n zero pfn =
    let (rc, actual) = the_n2n (get_checksum_filename pfn) (max_path_len + 1) in
    (is_set rc ≡ false) × (is_cksums (some actual) ≡ true)
Nests the_n2n (suc levels) pfn =
    let (rc, actual) = the_n2n (get_checksum_filename pfn) (max_path_len + 1) in
    (is_set rc ≡ false) × (is_cksums (some actual) ≡ false) × Nests the_n2n levels (some actual)

module _ {W Ctx : Type 0} (x : External W) (d : Digests Ctx) (garbage rounds : ℕ)
    (works : Succeeds x) (the_n2n : N2n) where
  -- The loop of `SetMultiple`, on an object that was opened just now: one write takes all.
  write_contents_whole :
      (f : File Ctx) (text : Bytes) (e : Env W)
      → f.nextoff ≡ 0
      → let w = x.write f.fs f.fh text e.world e.errno in
        write_contents x d garbage (suc rounds) (suc rounds) f 0 text e
        ≡ some (record {
          retval = pos (length text);
          text = drop (length text) text;
          file = record f {
            nextoff = advance f.nextoff (pos (length text));
            state = fed d f.state text;
          };
          env = record e { world = w.1; errno = w.2 };
        })
  unfolding write_contents write
  write_contents_whole f text e first =
      let all = works.writes f.fs f.fh text e.world e.errno in
      let in_order : (0 == f.nextoff) ≡ true = ap (λ n. 0 == n) first in
      rw (in_order, write_contents, all)
        (let w = x.write f.fs f.fh text e.world e.errno in
          let f' = record f {
            nextoff = advance f.nextoff (pos (length text));
            state = fed d f.state text;
          } in
          let e' = record e { world = w.1; errno = w.2 } in
          write_rest-all (λ w. [])
            (λ offset' rest'. write_contents x d garbage (suc rounds) rounds f' offset' rest' e')
            (λ left. record { retval = pos (length text); text = left; file = f'; env = e' }) 0
            (length text) text (omega arith))

  -- One call, whose file is opened under the name `fname`.
  module _ (depth : ℕ) (pfn : Option Bytes) (values : List ChecksumValue) (e : Env W)
      (fname : Bytes) where
    abbrev opened_file : (ℤ × File Ctx) × Env W
    opened_file = open_file x d new_file (get_checksum_filename pfn) o_wronly root_client garbage e

    abbrev set : Option Bytes → ChecksumState Ctx → Env W → Option (ℤ × Env W)
    set name s e2 = set_multiple x d garbage (suc rounds) depth name (values_of s) e2

    -- A `SetMultiple` whose file keeps checksums ends only behind the one that `Close` makes.
    set_multiple-stuck :
        Opens x works d the_n2n fname garbage opened_file
        → is_cksums (some fname) ≡ false
        → ((t : List ChecksumValue) (e' : Env W)
            → e'.n2n ≡ some the_n2n
            → set_multiple x d garbage (suc rounds) depth (some fname) t e' ≡ none)
        → set_multiple x d garbage (suc rounds) (suc depth) pfn values e ≡ none
    unfolding set_multiple
    set_multiple-stuck opened outside stuck =
        let r = opened_file in
        let fine : is_set r.0.0 ≡ false = ap is_set opened.code in
        let p =
          write_contents_whole r.0.1 (render values) r.1
            (nextoff-open_file x d (get_checksum_filename pfn) o_wronly root_client garbage e) in
        let w = x.write r.0.1.fs r.0.1.fh (render values) r.1.world r.1.errno in
        let state =
          ap (λ s. fed d s (render values))
            (opened.state ∙ new_state-outside x works d fname garbage outside) in
        let closing =
          close_hands_on x works d the_n2n set
            (record r.0.1 {
              nextoff = advance r.0.1.nextoff (pos (length (render values)));
              state = fed d r.0.1.state (render values);
            })
            (update d (create d all_bits garbage) (render values))
            (record r.1 { world = w.1; errno = w.2 }) state opened.n2n
            (λ t e' n.
              ap (λ name. set_multiple x d garbage (suc rounds) depth name (values_of t) e')
                opened.named
              ∙ stuck (values_of t) e' n) in
        rw (fine, set_multiple, p, set_multiple, closing, set_multiple) refl

    -- It ends, if its file keeps no checksums or the call that `Close` makes ends.
    set_multiple-ends :
        Opens x works d the_n2n fname garbage opened_file
        → ((t : List ChecksumValue) (e' : Env W)
            → is_cksums (some fname) ≡ false
            → e'.n2n ≡ some the_n2n
            → (e2 : Env W) × (set_multiple x d garbage (suc rounds) depth (some fname) t e'
                ≡ some (pos 0, e2)))
        → (e2 : Env W) × (set_multiple x d garbage (suc rounds) (suc depth) pfn values e
            ≡ some (pos 0, e2))
    unfolding set_multiple
    set_multiple-ends opened next =
        let r = opened_file in
        let fine : is_set r.0.0 ≡ false = ap is_set opened.code in
        let p =
          write_contents_whole r.0.1 (render values) r.1
            (nextoff-open_file x d (get_checksum_filename pfn) o_wronly root_client garbage e) in
        let w = x.write r.0.1.fs r.0.1.fh (render values) r.1.world r.1.errno in
        let (closed, q) =
          close_ends x works d the_n2n set
            (record r.0.1 {
              nextoff = advance r.0.1.nextoff (pos (length (render values)));
              state = fed d r.0.1.state (render values);
            })
            (record r.1 { world = w.1; errno = w.2 }) opened.n2n
            (λ t e' h n.
              let (e2, s) = next (values_of t) e' (outside_of h.0 h.1) n in
              (
                e2,
                ap (λ name. set_multiple x d garbage (suc rounds) depth name (values_of t) e')
                      opened.named
                    ∙ s,
              )) in
        rw (fine, set_multiple, p, set_multiple, q, set_multiple) (closed.1, refl)
      where
        differ : {s : ChecksumState Ctx} → ¬ (some s ≡ fed d none (render values))
        differ p = unfold fed in absurd (ground (arith, p))

        outside_of :
            (s : ChecksumState Ctx)
            → fed d opened_file.0.1.state (render values) ≡ some s
            → is_cksums (some fname) ≡ false
        outside_of s h = elim (Bool-cases (is_cksums (some fname))) [
          | inr outside ↦ outside
          | inl inside ↦ absurd (
              differ (
                sym h
                ∙ ap (λ s. fed d s (render values))
                    (opened.state ∙ new_state-inside x works d fname garbage inside)))
        ]

  -- If no call fails and HDFS takes every write whole, and the Name2Name object maps the names of the
  -- checksum file, of the checksum file of that, and so on `levels` times to names that do not stand
  -- under /cksums, and the next one to a name that does, then `SetMultiple` needs calls of itself through
  -- `Close` that are just one deeper than `levels`, the outermost included: with a depth of `levels` it
  -- does not come to its end, and with any greater depth it ends with code 0.
  pub set_multiple-Nests :
      (levels depth : ℕ) (pfn : Option Bytes) (values : List ChecksumValue) (e : Env W)
      → levels < depth
      → Nests the_n2n levels pfn
      → e.n2n ≡ some the_n2n
      → (set_multiple x d garbage (suc rounds) levels pfn values e ≡ none)
        × ((e2 : Env W) × (set_multiple x d garbage (suc rounds) depth pfn values e
              ≡ some (pos 0, e2)))
  set_multiple-Nests levels zero pfn values e deeper nested n = absurd (omega arith)
  set_multiple-Nests zero (suc depth) pfn values e deeper (mapped, inside) n =
      let actual = (the_n2n (get_checksum_filename pfn) (max_path_len + 1)).1 in
      (
        unfold set_multiple in refl,
        set_multiple-ends depth pfn values e actual
            (open_file-Opens x works d the_n2n (get_checksum_filename pfn) root_client garbage e n
              mapped)
            (λ t e' outside same. absurd (clash inside outside)),
      )
    where
      clash : {b : Bool} → b ≡ true → ¬ (b ≡ false)
      clash p q = cc
  set_multiple-Nests (suc levels) (suc depth) pfn values e deeper (mapped, outside, nested) n =
      let actual = (the_n2n (get_checksum_filename pfn) (max_path_len + 1)).1 in
      let opened =
        open_file-Opens x works d the_n2n (get_checksum_filename pfn) root_client garbage e n
          mapped in
      let inner = λ (t : List ChecksumValue) (e' : Env W) (same : e'.n2n ≡ some the_n2n).
        set_multiple-Nests levels depth (some actual) t e' (omega arith) nested same in
      (
        set_multiple-stuck levels pfn values e actual opened outside
            (λ t e' same. (inner t e' same).0),
        set_multiple-ends depth pfn values e actual opened (λ t e' _ same. (inner t e' same).1),
      )

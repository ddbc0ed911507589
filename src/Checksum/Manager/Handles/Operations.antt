-- ===== src/Checksum/Manager/Handles/Operations.antt =====
-- Each operation of the checksum manager leaves as many files open in HDFS as it finds.
use xrootd_hdfs.Base.{
  ℕ, ℤ, Bool, true, false, Option, none, some, List, [], ◌∷◌, Bytes, length, is_set, ◌≡◌, refl, inl,
  inr, Bool-cases, Option-cases, on_some, ltb,
}
use xrootd_hdfs.Env.{Env, External}
use xrootd_hdfs.Plugin.Handles.{Counts, Balances, Balances-trans}
use xrootd_hdfs.Sys.Handles.{unlink-Keeps}
use xrootd_hdfs.Checksum.State.{Digests}
use xrootd_hdfs.Checksum.Entries.{ChecksumValue, parse, upper}
use xrootd_hdfs.Checksum.Manager.{
  get_file_contents, get_from, put_value, del, get, find_value, requested_name,
}
use xrootd_hdfs.Checksum.Manager.Setting.{set_value, write_changed, set_cks}
use xrootd_hdfs.Checksum.Manager.Listing.{list_checksums}
use xrootd_hdfs.Checksum.Manager.Handles.{set_multiple-kept, get_file_contents-kept}

module _ {W Ctx : Type 0} (x : External W) (d : Digests Ctx) (garbage fuel : ℕ) (count : W → ℕ)
    (counts : Counts x count) where
  -- What follows `GetFileContents` in an operation.
  contents_kept :
      (depth : ℕ) (there : Bool) (pfn : Option Bytes) (e : Env W) (contents : ℤ × Bytes)
      (e' : Env W)
      → get_file_contents x d garbage fuel depth there pfn e ≡ some (contents, e')
      → count e'.world ≡ count e.world
  contents_kept depth there pfn e contents e' p =
      on_some (λ r. count r.1.world ≡ count e.world)
        (get_file_contents x d garbage fuel depth there pfn e) (contents, e') p
        (get_file_contents-kept x d garbage fuel count counts depth there pfn e)

  put_value-kept :
      (valu_size : ℕ) (pfn value : Bytes) (e : Env W)
      → count (put_value x valu_size pfn value e).1.world ≡ count e.world
  unfolding put_value del
  put_value-kept valu_size pfn [] e = unlink-Keeps x count counts pfn none e
  put_value-kept valu_size pfn (c ∷ text) e =
      elim (Bool-cases (ltb valu_size (length (c ∷ text)))) [
        | inl long ↦ rw long refl
        | inr fits ↦ rw fits refl
      ]

  get_from-kept :
      (valu_size : ℕ) (pfn requested : Bytes) (rc : ℤ) (contents : Bytes) (e : Env W)
      → Balances count e (get_from x valu_size pfn requested ((rc, contents), e))
  unfolding get_from
  get_from-kept valu_size pfn requested rc contents e = elim (Bool-cases (is_set rc)) [
    | inl failed ↦ rw (failed, get_from) refl
    | inr fine ↦ elim (Option-cases (parse contents)) [
      | inl out ↦ rw (fine, get_from, out, get_from) tt
      | inr ((bad, values), parsed) ↦ elim (Bool-cases (is_set bad)) [
        | inl wrong ↦ rw (fine, get_from, parsed, get_from, wrong, get_from) refl
        | inr right ↦
            rw (fine, get_from, parsed, get_from, right, get_from)
              (put_value-kept valu_size pfn (find_value requested values []) e)
      ]
    ]
  ]

  pub get-kept :
      (depth valu_size : ℕ) (there : Bool) (default pfn : Bytes) (name : Option Bytes) (e : Env W)
      → Balances count e (get x d garbage fuel depth there valu_size default name pfn e)
  unfolding get
  get-kept depth valu_size there default pfn name e =
      elim (Option-cases (get_file_contents x d garbage fuel depth there (some pfn) e)) [
        | inl out ↦ rw (out, get) tt
        | inr (((rc, contents), e'), p) ↦
            rw (p, get)
              (Balances-trans count e e'
                (get_from x valu_size pfn (requested_name name default) ((rc, contents), e'))
                (contents_kept depth there (some pfn) e (rc, contents) e' p)
                (get_from-kept valu_size pfn (requested_name name default) rc contents e'))
      ]

  write_changed-kept :
      (depth : ℕ) (pfn : Option Bytes) (r : List ChecksumValue × Bool) (e : Env W)
      → Balances count e (write_changed x d garbage fuel depth pfn r e)
  unfolding write_changed
  write_changed-kept depth pfn (values, true) e =
      set_multiple-kept x d garbage fuel count counts depth pfn values e
  write_changed-kept depth pfn (values, false) e = refl

  pub set_cks-kept :
      (depth : ℕ) (there : Bool) (pfn : Option Bytes) (name value : Bytes) (e : Env W)
      → Balances count e (set_cks x d garbage fuel depth there pfn name value e)
  unfolding set_cks
  set_cks-kept depth there pfn name value e =
      elim (Option-cases (get_file_contents x d garbage fuel depth there pfn e)) [
        | inl out ↦ rw (out, set_cks) tt
        | inr (((rc, contents), e'), p) ↦
            let kept = contents_kept depth there pfn e (rc, contents) e' p in
            elim (Bool-cases (is_set rc)) [
              | inl failed ↦ rw (p, set_cks, failed, set_cks) kept
              | inr fine ↦ elim (Option-cases (parse contents)) [
                | inl out ↦ rw (p, set_cks, fine, set_cks, out, set_cks) tt
                | inr ((bad, values), parsed) ↦ elim (Bool-cases (is_set bad)) [
                  | inl wrong ↦ rw (p, set_cks, fine, set_cks, parsed, set_cks, wrong, set_cks) kept
                  | inr right ↦
                      rw (p, set_cks, fine, set_cks, parsed, set_cks, right, set_cks)
                        (Balances-trans count e e'
                          (write_changed x d garbage fuel depth pfn
                            (set_value (upper name) value values) e')
                          kept
                          (write_changed-kept depth pfn (set_value (upper name) value values) e'))
                ]
              ]
            ]
      ]

  pub list_checksums-kept :
      (depth blen separator : ℕ) (there : Bool) (pfn : Option Bytes) (e : Env W)
      → Balances count e (list_checksums x d garbage fuel depth there pfn blen separator e)
  unfolding list_checksums
  list_checksums-kept depth blen separator there pfn e =
      elim (Option-cases (get_file_contents x d garbage fuel depth there pfn e)) [
        | inl out ↦ rw (out, list_checksums) tt
        | inr (((rc, contents), e'), p) ↦
            let kept = contents_kept depth there pfn e (rc, contents) e' p in
            elim (Bool-cases (is_set rc)) [
              | inl failed ↦ rw (p, list_checksums, failed, list_checksums) kept
              | inr fine ↦ elim (Option-cases (parse contents)) [
                | inl out ↦ rw (p, list_checksums, fine, list_checksums, out, list_checksums) tt
                | inr ((bad, values), parsed) ↦ elim (Bool-cases (is_set bad)) [
                  | inl wrong ↦
                      rw
                        (
                          p, list_checksums, fine, list_checksums, parsed, list_checksums, wrong,
                          list_checksums,
                        )
                        kept
                  | inr right ↦
                      rw
                        (
                          p, list_checksums, fine, list_checksums, parsed, list_checksums, right,
                          list_checksums,
                        )
                        kept
                ]
              ]
            ]
      ]

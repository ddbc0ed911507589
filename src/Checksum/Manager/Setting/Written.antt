-- ===== src/Checksum/Manager/Setting/Written.antt =====
-- `Set(pfn, cks)`, from the file that it reads to the entries that it writes.
use xrootd_hdfs.Base.{
  ℕ, List, [], ◌∷◌, Bytes, Bool, true, false, not, Option, some, pos, map, All, ◌||◌, ◌&&◌, ◌==◌,
  ◌≡◌, refl, sym, ap, ap₂, ◌∙◌, inl, inr, arith, Bool-cases, if◌then◌else◌,
}
use xrootd_hdfs.Plugin.{eq_bytes}
use xrootd_hdfs.Plugin.Connections.{eq_bytes_iff}
use xrootd_hdfs.Text.{eq_ignoring_case, to_lower}
use xrootd_hdfs.Env.{Env, External}
use xrootd_hdfs.Checksum.State.{Digests}
use xrootd_hdfs.Checksum.Entries.{ChecksumValue, upper, render}
use xrootd_hdfs.Checksum.Entries.RoundTrip.{IsEntry, upper_entry, parse-render}
use xrootd_hdfs.Checksum.Manager.{find_value, get_file_contents, set_multiple}
use xrootd_hdfs.Checksum.Manager.Lookup.{eq_ignoring_case-upper, find_value-upper_entry}
use xrootd_hdfs.Checksum.Manager.Setting.{replace_loop, set_value, write_changed, set_cks}
use xrootd_hdfs.Checksum.Manager.Setting.Found.{same_upper, same_found, find_value-set_value}

-- An entry of the name, in any case, has the value already.
unfoldable pub holds : Bytes → Bytes → List ChecksumValue → Bool
holds name val [] = false
holds name val (v ∷ values) =
    (eq_ignoring_case v.first name && eq_bytes v.second val) || holds name val values

eq_ignoring_case_self : (a : Bytes) → eq_ignoring_case a a ≡ true
eq_ignoring_case_self [] = refl
eq_ignoring_case_self (c ∷ a) = both (to_lower c) (eq_ignoring_case a a) (eq_ignoring_case_self a)
  where
    both : (n : ℕ) (t : Bool) → t ≡ true → ((n == n) && t) ≡ true
    both n t h = ground arith

-- Names are compared in upper case, which is a comparison without case.
eq_bytes-upper : (a name : Bytes) → eq_bytes (upper a) (upper name) ≡ eq_ignoring_case a name
eq_bytes-upper a name = elim (Bool-cases (eq_ignoring_case a name)) [
  | inl h ↦
      (eq_bytes_iff (upper a) (upper name)).1
        (same_upper a name name h (eq_ignoring_case_self name))
      ∙ sym h
  | inr h ↦ elim (Bool-cases (eq_bytes (upper a) (upper name))) [
    | inr n ↦ n ∙ sym h
    | inl m ↦
        absurd
          (clash (same_found a name name ((eq_bytes_iff _ _).0 m) ∙ eq_ignoring_case_self name) h)
  ]
]
  where
    clash : {b : Bool} → b ≡ true → ¬ (b ≡ false)
    clash p q = cc

changed_lem :
    (name val : Bytes) (values : List ChecksumValue)
    → (replace_loop (upper name) val values).changed ≡ not (holds name val values)
unfolding replace_loop holds
changed_lem name val [] = refl
changed_lem name val (v ∷ values) = elim (Bool-cases (eq_bytes (upper v.first) (upper name))) [
  | inr n ↦
      let other = sym (eq_bytes-upper v.first name) ∙ n in
      rw (n, other) (changed_lem name val values)
  | inl m ↦
      let found = sym (eq_bytes-upper v.first name) ∙ m in
      elim (Bool-cases (eq_bytes v.second val)) [
        | inl s ↦ rw (m, found, s) refl
        | inr s ↦ rw (m, found, s) (changed_lem name val values)
      ]
]

holds-upper_entry :
    (name val : Bytes) (values : List ChecksumValue)
    → holds name val (map upper_entry values) ≡ holds name val values
unfolding holds
holds-upper_entry name val [] = refl
holds-upper_entry name val (v ∷ values) =
    ap₂ (λ same rest. (same && eq_bytes v.second val) || rest) (eq_ignoring_case-upper v.first name)
      (holds-upper_entry name val values)

module _ {W Ctx : Type 0} (x : External W) (d : Digests Ctx) (garbage fuel : ℕ) where
  write_changed_lem :
      (depth : ℕ) (pfn : Option Bytes) (r : List ChecksumValue × Bool) (old : Bool) (e : Env W)
      → r.1 ≡ not old
      → write_changed x d garbage fuel depth pfn r e
        ≡ (if old then some (pos 0, e) else set_multiple x d garbage fuel depth pfn r.0 e)
  unfolding write_changed
  write_changed_lem depth pfn (values, changed) true e h = rw h refl
  write_changed_lem depth pfn (values, changed) false e h = rw h refl

  -- `Set(pfn, cks)` on a file that holds what `SetMultiple` writes for a list of checksums. If an entry of
  -- the name, in any case, has the value already, which need not be the one that `Get` finds, then the
  -- file is left and the code is 0. Otherwise `Set` is `SetMultiple` of entries in which the search for
  -- the name, in any case, finds the new value, and the search for any other name what it found before.
  pub set_cks_lem :
      (depth : ℕ) (loaded : Bool) (pfn : Option Bytes) (name val : Bytes)
      (values : List ChecksumValue) (e e' : Env W)
      → All IsEntry values
      → get_file_contents x d garbage fuel depth loaded pfn e ≡ some ((pos 0, render values), e')
      → (written : List ChecksumValue) × (set_cks x d garbage fuel depth loaded pfn name val e ≡ (
          if holds name val values
          then some (pos 0, e')
          else set_multiple x d garbage fuel depth pfn written e'))
        × ((requested : Bytes)
            → find_value requested written []
              ≡ (if eq_ignoring_case name requested then val else find_value requested values []))
  unfolding set_cks set_value
  set_cks_lem depth loaded pfn name val values e e' entries contents =
      let upper_values = map upper_entry values in
      let r = set_value (upper name) val upper_values in
      (
        r.0,
        rw (contents, set_cks, parse-render values entries, set_cks)
            (write_changed_lem depth pfn r (holds name val values) e'
              (changed_lem name val upper_values ∙ ap not (holds-upper_entry name val values))),
        λ requested.
            find_value-set_value name requested val upper_values
            ∙ ap (λ found. if eq_ignoring_case name requested then val else found)
                (find_value-upper_entry requested values []),
      )

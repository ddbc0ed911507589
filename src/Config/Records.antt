-- ===== src/Config/Records.antt =====
-- The loop of `ConfigProc` over a stream with given directives.
use mathlib.Core.Bool.{◌&&◌}
use xrootd_hdfs.Base.{
  ℕ, zero, suc, pos, ◌<◌, Option, none, some, List, [], ◌∷◌, ◌++◌, Bytes, true, false, length, take,
  drop, take-append-drop, ◌≡◌, refl, sym, ap, ap₂, ◌∙◌, inl, inr, arith, Bool-cases,
}
use xrootd_hdfs.Env.{codes}
use xrootd_hdfs.Plugin.{eq_bytes}
use xrootd_hdfs.Plugin.Connections.{eq_bytes_iff}
use xrootd_hdfs.Config.{
  Settings, Host, Handled, record_parms, record_path, is_oss, no_go_after, after_directive, xnml,
  config_xeq, next_record, read_records,
}
use xrootd_hdfs.Config.Directives.{Directive, is_namelib, set_by, settled}

same_directive :
    (name : Bytes)
    → eq_bytes name (codes "oss.namelib")
      ≡ (is_oss name && eq_bytes (codes "namelib") (drop 4 name))
same_directive name = elim (Bool-cases (eq_bytes name (codes "oss.namelib"))) [
  | inl equal ↦
      let p = (eq_bytes_iff name (codes "oss.namelib")).0 equal in
      equal ∙ sym (ap (λ n. is_oss n && eq_bytes (codes "namelib") (drop 4 n)) p)
  | inr other ↦ elim (Bool-cases (is_oss name)) [
    | inr p ↦ other ∙ sym (rw p refl)
    | inl p ↦ elim (Bool-cases (eq_bytes (codes "namelib") (drop 4 name))) [
      | inr q ↦ other ∙ sym (rw (p, q) refl)
      | inl q ↦
          let front = (eq_bytes_iff (take 4 name) (codes "oss.")).0 p in
          let back = (eq_bytes_iff (codes "namelib") (drop 4 name)).0 q in
          let whole : name ≡ codes "oss.namelib" =
            sym (take-append-drop 4 name) ∙ ap₂ (λ a b. a ++ b) front (sym back) in
          absurd (ground (arith, (eq_bytes_iff name (codes "oss.namelib")).1 whole))
    ]
  ]
]

module _ {W S : Type 0} (h : Host W S) where
  -- The stream has these records before it, whatever was read of each, and then its end, with no error.
  unfoldable pub Holds : S → List Directive → Type 0
  Holds s [] = ((h.get_my_first_word s).0 ≡ none) × (h.last_error (h.get_my_first_word s).1 ≡ pos 0)
  Holds s (d ∷ ds) =
      let s1 = (h.get_my_first_word s).1 in
      let s2 = (h.get_word s1).1 in
      ((h.get_my_first_word s).0 ≡ some d.name)
      × ((h.get_word s1).0 ≡ d.word)
      × ((h.get_rest 1024 s2).0 ≡ d.rest)
      × Holds s1 ds
      × Holds s2 ds
      × Holds (h.get_rest 1024 s2).1 ds

  -- The stream behind a `namelib` directive.
  behind : Option Bytes → S → S
  behind none s1 = (h.get_word s1).1
  behind (some []) s1 = (h.get_word s1).1
  behind (some (c ∷ lib)) s1 = (h.get_rest 1024 (h.get_word s1).1).1

  xnml_lem :
      (word rest : Option Bytes) (s1 : S) (k : Settings)
      → (h.get_word s1).0 ≡ word
      → (h.get_rest 1024 (h.get_word s1).1).0 ≡ rest
      → xnml h s1 k ≡ (set_by word rest k, behind word s1)
  unfolding xnml set_by behind
  xnml_lem none rest s1 k p q = ap (λ v. record_path (h.get_rest 1024) k (v, (h.get_word s1).1)) p
  xnml_lem (some []) rest s1 k p q =
      ap (λ v. record_path (h.get_rest 1024) k (v, (h.get_word s1).1)) p
  xnml_lem (some (c ∷ lib)) none s1 k p q =
      let s2 = (h.get_word s1).1 in
      ap (λ v. record_path (h.get_rest 1024) k (v, s2)) p
      ∙ ap (λ v. record_parms (record k { n2n_lib = some (c ∷ lib) }) (v, (h.get_rest 1024 s2).1)) q
  xnml_lem (some (c ∷ lib)) (some parms) s1 k p q =
      let s2 = (h.get_word s1).1 in
      ap (λ v. record_path (h.get_rest 1024) k (v, s2)) p
      ∙ ap (λ v. record_parms (record k { n2n_lib = some (c ∷ lib) }) (v, (h.get_rest 1024 s2).1)) q

  Holds-behind :
      (word : Option Bytes) (s1 : S) (ds : List Directive)
      → Holds (h.get_word s1).1 ds
      → Holds (h.get_rest 1024 (h.get_word s1).1).1 ds
      → Holds (behind word s1) ds
  unfolding behind
  Holds-behind none s1 ds h2 h3 = h2
  Holds-behind (some []) s1 ds h2 h3 = h2
  Holds-behind (some (c ∷ lib)) s1 ds h2 h3 = h3

  skipped :
      (again : S → Settings → ℕ → Option (Handled S)) (name : Bytes) (s1 : S) (k : Settings) (n : ℕ)
      → eq_bytes name (codes "oss.namelib") ≡ false
      → next_record h again k n (some name, s1) ≡ again s1 k n
  unfolding next_record config_xeq
  skipped again name s1 k n p = elim (Bool-cases (is_oss name)) [
    | inr other ↦ rw (other, next_record) refl
    | inl oss ↦ elim (Bool-cases (eq_bytes (codes "namelib") (drop 4 name))) [
      | inr other ↦ rw (oss, next_record, other, config_xeq) refl
      | inl here ↦
          let both : (is_oss name && eq_bytes (codes "namelib") (drop 4 name)) ≡ true =
            rw (oss, here) refl in
          absurd (ground (arith, same_directive name))
    ]
  ]

  taken :
      (again : S → Settings → ℕ → Option (Handled S)) (name : Bytes) (s1 : S) (k : Settings) (n : ℕ)
      → eq_bytes name (codes "oss.namelib") ≡ true
      → next_record h again k n (some name, s1) ≡ after_directive again n (xnml h s1 k)
  unfolding next_record config_xeq
  taken again name s1 k n p =
      ap (λ var. next_record h again k n (some var, s1))
        ((eq_bytes_iff name (codes "oss.namelib")).0 p)

  -- The loop of `ConfigProc` ends, with fuel for each record, and each record has had its effect.
  pub read_records_lem :
      (ds : List Directive) (fuel : ℕ) (s : S) (k : Settings) (n : ℕ)
      → Holds s ds
      → length ds < fuel
      → (s' : S) × (read_records h fuel s k n ≡ some (settled ds k n, s'))
        × (h.last_error s' ≡ pos 0)
  unfolding read_records settled Holds
  read_records_lem ds zero s k n hs f = absurd (omega arith)
  read_records_lem [] (suc fuel) s k n hs f =
      let s1 = (h.get_my_first_word s).1 in
      (s1, ap (λ v. next_record h (read_records h fuel) k n (v, s1)) hs.0, hs.1)
  read_records_lem (d ∷ ds) (suc fuel) s k n hs f =
      let s1 = (h.get_my_first_word s).1 in
      let (p, pw, pr, h1, h2, h3) = hs in
      let first = ap (λ v. next_record h (read_records h fuel) k n (v, s1)) p in
      elim (Bool-cases (is_namelib d)) [
        | inr other ↦
            let (s', q, e) = read_records_lem ds fuel s1 k n h1 (omega arith) in
            rw (other, settled)
              (s', first ∙ skipped (read_records h fuel) d.name s1 k n other ∙ q, e)
        | inl here ↦
            let r = set_by d.word d.rest k in
            let (s', q, e) =
              read_records_lem ds fuel (behind d.word s1) r.1 (no_go_after r.0 n)
                (Holds-behind d.word s1 ds h2 h3) (omega arith) in
            rw (here, settled)
              (
                s',
                first
                    ∙ taken (read_records h fuel) d.name s1 k n here
                    ∙ ap (after_directive (read_records h fuel) n)
                        (xnml_lem d.word d.rest s1 k pw pr)
                    ∙ q,
                e,
              )
      ]

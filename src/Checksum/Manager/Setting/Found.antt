-- ===== src/Checksum/Manager/Setting/Found.antt =====
-- What a search finds in the entries that `Set(pfn, cks)` writes.
use xrootd_hdfs.Base.{
  ℕ, List, [], ◌∷◌, ◌++◌, Bytes, Bool, true, false, ◌&&◌, ◌==◌, ◌≡◌, refl, sym, ap, ap₂, ◌∙◌, inl,
  inr, arith, Bool-cases, if◌then◌else◌,
}
use xrootd_hdfs.Plugin.{eq_bytes}
use xrootd_hdfs.Plugin.Connections.{eq_bytes_iff}
use xrootd_hdfs.Text.{eq_ignoring_case, to_upper, to_lower}
use xrootd_hdfs.Checksum.Entries.{ChecksumValue, upper}
use xrootd_hdfs.Checksum.Manager.{find_value}
use xrootd_hdfs.Checksum.Manager.Lookup.{eq_ignoring_case-upper}
use xrootd_hdfs.Checksum.Manager.Setting.{replace_loop, set_value}

same_letter :
    (a b c : ℕ) → to_lower a ≡ to_lower c → to_lower b ≡ to_lower c → to_upper a ≡ to_upper b
same_letter a b c h k = ground arith

-- Two names that stand for the same requested name are the same in upper case.
pub same_upper :
    (a b c : Bytes) → eq_ignoring_case a c ≡ true → eq_ignoring_case b c ≡ true → upper a ≡ upper b
unfolding upper
same_upper [] [] [] h k = refl
same_upper [] [] (z ∷ c) h k = cc
same_upper [] (y ∷ b) [] h k = cc
same_upper [] (y ∷ b) (z ∷ c) h k = cc
same_upper (x ∷ a) [] [] h k = cc
same_upper (x ∷ a) [] (z ∷ c) h k = cc
same_upper (x ∷ a) (y ∷ b) [] h k = cc
same_upper (x ∷ a) (y ∷ b) (z ∷ c) h k =
    let (h1, h2) = heads (to_lower x) (to_lower z) (eq_ignoring_case a c) h in
    let (k1, k2) = heads (to_lower y) (to_lower z) (eq_ignoring_case b c) k in
    ap₂ ◌∷◌ (same_letter x y z h1 k1) (same_upper a b c h2 k2)
  where
    heads : (a b : ℕ) (t : Bool) → ((a == b) && t) ≡ true → (a ≡ b) × (t ≡ true)
    heads a b t h = ground arith

find_value-nil : (requested found : Bytes) → find_value requested [] found ≡ found
unfolding find_value
find_value-nil requested found = refl

find_value-append :
    (requested : Bytes) (values more : List ChecksumValue) (found : Bytes)
    → find_value requested (values ++ more) found
      ≡ find_value requested more (find_value requested values found)
unfolding find_value
find_value-append requested [] more found = refl
find_value-append requested (v ∷ values) more found = find_value-append requested values more _

-- An entry that the loop replaces is one that the search finds, under every spelling of the name.
pub same_found :
    (a name requested : Bytes)
    → upper a ≡ upper name
    → eq_ignoring_case a requested ≡ eq_ignoring_case name requested
same_found a name requested h =
    sym (eq_ignoring_case-upper a requested)
    ∙ ap (λ n. eq_ignoring_case n requested) h
    ∙ eq_ignoring_case-upper name requested

-- The search behind one entry.
find_value-hit :
    (requested found : Bytes) (v : ChecksumValue) (values : List ChecksumValue)
    → eq_ignoring_case v.first requested ≡ true
    → find_value requested (v ∷ values) found ≡ find_value requested values v.second
unfolding find_value
find_value-hit requested found v values h = rw (h, find_value) refl

find_value-miss :
    (requested found : Bytes) (v : ChecksumValue) (values : List ChecksumValue)
    → eq_ignoring_case v.first requested ≡ false
    → find_value requested (v ∷ values) found ≡ find_value requested values found
unfolding find_value
find_value-miss requested found v values h = rw (h, find_value) refl

-- An entry that the loop leaves is none that the search finds.
other_missed :
    (a name requested : Bytes)
    → eq_ignoring_case name requested ≡ true
    → eq_bytes (upper a) (upper name) ≡ false
    → eq_ignoring_case a requested ≡ false
other_missed a name requested h n = elim (Bool-cases (eq_ignoring_case a requested)) [
  | inr miss ↦ miss
  | inl hit ↦
      absurd (clash n ((eq_bytes_iff (upper a) (upper name)).1 (same_upper a name requested hit h)))
]
  where
    clash : {b : Bool} → b ≡ false → ¬ (b ≡ true)
    clash p q = cc

either : (b : Bool) (val w : Bytes) → w ≡ val → (if b then val else w) ≡ val
either true val w h = refl
either false val w h = h

-- The loop, for a search of the name that it sets.
replace_loop-found :
    (name requested val found : Bytes) (values : List ChecksumValue)
    → eq_ignoring_case name requested ≡ true
    → let r = replace_loop (upper name) val values in
      find_value requested r.values found ≡ (if r.overwrote then val else found)
unfolding replace_loop find_value
replace_loop-found name requested val found [] h = refl
replace_loop-found name requested val found (v ∷ values) h =
    let r = replace_loop (upper name) val values in
    elim (Bool-cases (eq_bytes (upper v.first) (upper name))) [
      | inr n ↦ rw n (
          find_value-miss requested found v r.values (other_missed v.first name requested h n)
          ∙ replace_loop-found name requested val found values h)
      | inl m ↦
          let hit = same_found v.first name requested ((eq_bytes_iff _ _).0 m) ∙ h in
          elim (Bool-cases (eq_bytes v.second val)) [
            | inl s ↦
                rw (m, s)
                  (find_value-hit requested found v r.values hit
                    ∙ replace_loop-found name requested val v.second values h
                    ∙ either r.overwrote val v.second ((eq_bytes_iff _ _).0 s))
            | inr s ↦
                rw (m, s)
                  (find_value-hit requested found (record v { second = val }) r.values hit
                    ∙ replace_loop-found name requested val val values h
                    ∙ either r.overwrote val val refl)
          ]
    ]

-- The loop, for a search of another name.
replace_loop-others :
    (name requested val found : Bytes) (values : List ChecksumValue)
    → eq_ignoring_case name requested ≡ false
    → find_value requested (replace_loop (upper name) val values).values found
      ≡ find_value requested values found
unfolding replace_loop
replace_loop-others name requested val found [] h = refl
replace_loop-others name requested val found (v ∷ values) h =
    let r = replace_loop (upper name) val values in
    elim (Bool-cases (eq_bytes (upper v.first) (upper name))) [
      | inr n ↦ rw n (kept r.values refl (λ w. replace_loop-others name requested val w values h))
      | inl m ↦
          let miss = same_found v.first name requested ((eq_bytes_iff _ _).0 m) ∙ h in
          elim (Bool-cases (eq_bytes v.second val)) [
            | inl s ↦
                rw (m, s)
                  (kept r.values refl (λ w. replace_loop-others name requested val w values h))
            | inr s ↦
                rw (m, s)
                  (find_value-miss requested found (record v { second = val }) r.values miss
                    ∙ replace_loop-others name requested val found values h
                    ∙ sym (find_value-miss requested found v values miss))
          ]
    ]
  where
    kept :
        (rest : List ChecksumValue)
        → (replace_loop (upper name) val values).values ≡ rest
        → ((w : Bytes) → find_value requested rest w ≡ find_value requested values w)
        → find_value requested (v ∷ rest) found ≡ find_value requested (v ∷ values) found
    kept rest e ih =
        unfold find_value in ih (if eq_ignoring_case v.first requested then v.second else found)

-- In the entries that `Set` makes, the search for a name that equals `cks.Name` but for case finds the
-- new value, and the search for any other name finds what it found before.
pub find_value-set_value :
    (name requested val : Bytes) (values : List ChecksumValue)
    → find_value requested (set_value (upper name) val values).0 []
      ≡ (if eq_ignoring_case name requested then val else find_value requested values [])
unfolding set_value
find_value-set_value name requested val values =
    let r = replace_loop (upper name) val values in
    let added : ChecksumValue = record { first = upper name; second = val } in
    elim (Bool-cases (eq_ignoring_case name requested)) [
      | inl h ↦ rw h (elim (Bool-cases r.overwrote) [
        | inl o ↦
            rw o (
              replace_loop-found name requested val [] values h ∙ ap (λ b. if b then val else []) o)
        | inr o ↦ rw o (
            find_value-append requested r.values (added ∷ []) []
            ∙ find_value-hit requested (find_value requested r.values []) added []
                (eq_ignoring_case-upper name requested ∙ h)
            ∙ find_value-nil requested val)
      ])
      | inr h ↦ rw h (elim (Bool-cases r.overwrote) [
        | inl o ↦ rw o (replace_loop-others name requested val [] values h)
        | inr o ↦ rw o (
            find_value-append requested r.values (added ∷ []) []
            ∙ find_value-miss requested (find_value requested r.values []) added []
                (eq_ignoring_case-upper name requested ∙ h)
            ∙ find_value-nil requested (find_value requested r.values [])
            ∙ replace_loop-others name requested val [] values h)
      ])
    ]

-- ===== src/Plugin/Paths.antt =====
-- The two forms of `Lfn2Pfn`: one copies into the caller's buffer, one returns the text.
use xrootd_hdfs.Base.{
  ℕ, ℤ, pos, neg, ◌<◌, true, false, Option, none, some, ◌≡◌, refl, Bytes, length, leb, arith, ◌⊎◌,
  inl, inr, Bool-cases, Option-cases, sym, ◌∙◌, is_set, ◌+◌, leb→lt, Bool, if◌then◌else◌,
}
use xrootd_hdfs.Env.{Env, External, N2n, enametoolong}
use xrootd_hdfs.Plugin.{lfn2pfn, lfn2pfn_rc, get_real_path, max_path_len, strdup}

abbrev pub IsSome : Option N2n → Type 0
IsSome none = ⊥
IsSome (some the_n2n) = Unit {0}

-- If the form of `Lfn2Pfn` that copies gives code 0, the form that returns the text gives the same text
-- and code 0; and there is a Name2Name object, or the text and its NUL fit the buffer.
pub lfn2pfn_agree :
    (n2n : Option N2n) (oldp : Bytes) (blen : ℕ)
    → (lfn2pfn n2n oldp blen).0 ≡ pos 0
    → (lfn2pfn_rc n2n oldp blen ≡ ((lfn2pfn n2n oldp blen).1, pos 0))
      × (IsSome n2n ⊎ (length oldp < blen))
unfolding lfn2pfn lfn2pfn_rc
lfn2pfn_agree (some the_n2n) oldp blen ok = (rw ok refl, inl tt)
lfn2pfn_agree none oldp blen ok = elim (Bool-cases (leb blen (length oldp))) [
  | inl long ↦ absurd (too_long _ (leb blen (length oldp)) long ok)
  | inr fits ↦ rw fits (refl, inr (leb→lt blen (length oldp) fits))
]
  where
    too_long :
        (answer : ℤ × Option Bytes) (long : Bool)
        → long ≡ true
        → ¬ ((if long then (neg enametoolong, none) else answer).0 ≡ pos 0)
    too_long answer true h = λ e. ground arith
    too_long answer false h = λ e. cc

module _ {W : Type 0} (x : External W) where
  -- A Name2Name object that gives code 0 decides the name.
  pub get_real_path-mapped :
      (the_n2n : N2n) (name : Bytes) (e : Env W)
      → e.n2n ≡ some the_n2n
      → is_set (the_n2n name (max_path_len + 1)).0 ≡ false
      → ((n : ℕ) → (x.alloc n e.world e.errno).0 ≡ true)
      → (get_real_path x name e).0 ≡ some (the_n2n name (max_path_len + 1)).1
  unfolding get_real_path strdup
  get_real_path-mapped the_n2n name e h mapped allocates =
      rw (h, get_real_path, mapped, get_real_path, allocates, get_real_path) refl

  pub n2n-get_real_path :
      (the_n2n : N2n) (name : Bytes) (e : Env W)
      → e.n2n ≡ some the_n2n
      → (get_real_path x name e).1.n2n ≡ some the_n2n
  unfolding get_real_path strdup
  n2n-get_real_path the_n2n name e h =
      elim (Bool-cases (is_set (the_n2n name (max_path_len + 1)).0)) [
        | inl refused ↦ rw (h, get_real_path, refused, get_real_path) h
        | inr mapped ↦ rw (h, get_real_path, mapped, get_real_path) h
      ]

  unmapped-get_real_path :
      (name : Bytes) (e : Env W) → e.n2n ≡ none → (get_real_path x name e).1.n2n ≡ none
  unfolding get_real_path strdup
  unmapped-get_real_path name e h = rw (h, get_real_path) h

  pub same-get_real_path : (name : Bytes) (e : Env W) → (get_real_path x name e).1.n2n ≡ e.n2n
  same-get_real_path name e = elim (Option-cases e.n2n) [
    | inl unmapped ↦ unmapped-get_real_path name e unmapped ∙ sym unmapped
    | inr (the_n2n, mapped) ↦ n2n-get_real_path the_n2n name e mapped ∙ sym mapped
  ]

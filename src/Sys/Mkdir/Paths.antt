-- ===== src/Sys/Mkdir/Paths.antt =====
-- What `Mkdir` does with the text of a path: trailing slashes go, and the parent is what stands before
-- the last part.
use xrootd_hdfs.Base.{
  ℕ, zero, suc, ◌≤◌, ◌<◌, true, false, none, some, [], ◌∷◌, ◌++◌, Bytes, take, get_or, length, ◌==◌,
  ◌≡◌, ◌≢◌, refl, sym, ap, ◌∙◌, arith, take_all, take-append, length-append, ◌+◌, append_assoc,
}
use xrootd_hdfs.Text.{NoSlash}
use xrootd_hdfs.Sys.Mkdir.{path, strip, parent_of, last_slash}

abbrev pub slashes : ℕ → Bytes
slashes zero = []
slashes (suc n) = b'/' ∷ slashes n

get_or-append : (s t : Bytes) (i : ℕ) → get_or (s ++ t) (length s + i) 0 ≡ get_or t i 0
get_or-append [] t i = ap (λ k. get_or t k 0) (plus i)
  where
    plus : (i : ℕ) → 0 + i ≡ i
    plus i = omega arith
get_or-append (c ∷ s) t i =
    ap (λ k. get_or (c ∷ (s ++ t)) k 0) (next (length s) i) ∙ get_or-append s t i
  where
    next : (n i : ℕ) → suc n + i ≡ suc (n + i)
    next n i = omega arith

get_or-front : (s t : Bytes) (i : ℕ) → i < length s → get_or (s ++ t) i 0 ≡ get_or s i 0
get_or-front [] t i h = absurd (omega arith)
get_or-front (c ∷ s) t zero h = refl
get_or-front (c ∷ s) t (suc i) h = get_or-front s t i (omega arith)

get_or-slashes : (n i : ℕ) → i < n → get_or (slashes n) i 0 ≡ b'/'
get_or-slashes zero i h = absurd (omega arith)
get_or-slashes (suc n) zero h = refl
get_or-slashes (suc n) (suc i) h = get_or-slashes n i (omega arith)

get_or-NoSlash : (s : Bytes) (i : ℕ) → NoSlash s → i < length s → get_or s i 0 ≢ b'/'
get_or-NoSlash [] i h k = absurd (omega arith)
get_or-NoSlash (c ∷ s) zero h k = h.0
get_or-NoSlash (c ∷ s) (suc i) h k = get_or-NoSlash s i h.1 (omega arith)

-- The loop goes back over slashes to the byte before them.
strip-slashes :
    (front : Bytes) (c n i : ℕ)
    → 0 < length front
    → c ≢ b'/'
    → i ≤ n
    → let q = front ++ c ∷ [] in strip (suc (length front) + i) (q ++ slashes n) ≡ path q
unfolding strip
strip-slashes [] c n i h other k = absurd (omega arith)
strip-slashes (a ∷ s) c n zero h other k =
    let q = a ∷ (s ++ c ∷ []) in
    let here : suc (length (a ∷ s)) + 0 ≡ suc (suc (length s)) = omega arith in
    let size : length q ≡ suc (suc (length s)) = omega (arith, length-append s (c ∷ [])) in
    let last : get_or (q ++ slashes n) (suc (length s)) 0 ≡ c =
      get_or-front q (slashes n) (suc (length s)) (omega (arith, size))
      ∙ ap (λ i. get_or (s ++ c ∷ []) i 0) (sym (plus (length s)))
      ∙ get_or-append s (c ∷ []) 0 in
    let no_slash : (get_or (q ++ slashes n) (suc (length s)) 0 == b'/') ≡ false =
      ap (λ k. k == b'/') last ∙ differ c other in
    ap (λ k. strip k (q ++ slashes n)) here
    ∙ rw (no_slash, strip)
        (ap path (
          ap (λ k. take k (q ++ slashes n)) (sym size)
          ∙ take-append (length q) q (slashes n) (omega arith)
          ∙ take_all (length q) q (omega arith)))
  where
    plus : (n : ℕ) → n + 0 ≡ n
    plus n = omega arith

    differ : (c : ℕ) → c ≢ b'/' → (c == b'/') ≡ false
    differ c h = ground arith
strip-slashes (a ∷ s) c n (suc i) h other k =
    let q = a ∷ (s ++ c ∷ []) in
    let here : suc (length (a ∷ s)) + suc i ≡ suc (suc (suc (length s) + i)) = omega arith in
    let before : suc (length (a ∷ s)) + i ≡ suc (suc (length s) + i) = omega arith in
    let size : length q ≡ suc (suc (length s)) = omega (arith, length-append s (c ∷ [])) in
    let at_slash : length q + i ≡ suc (suc (length s) + i) = omega (arith, size) in
    let slash : get_or (q ++ slashes n) (suc (suc (length s) + i)) 0 ≡ b'/' =
      ap (λ k. get_or (q ++ slashes n) k 0) (sym at_slash)
      ∙ get_or-append q (slashes n) i
      ∙ get_or-slashes n i (omega arith) in
    let is_slash : (get_or (q ++ slashes n) (suc (suc (length s) + i)) 0 == b'/') ≡ true =
      ap (λ k. k == b'/') slash in
    ap (λ k. strip k (q ++ slashes n)) here
    ∙ rw (is_slash, strip)
        (ap (λ k. strip k (q ++ slashes n)) (sym before)
          ∙ strip-slashes (a ∷ s) c n i h other (omega arith))

last_slash-none : (base : Bytes) → NoSlash base → last_slash base ≡ none
unfolding last_slash
last_slash-none [] h = refl
last_slash-none (c ∷ base) h =
    let other : (c == b'/') ≡ false = differ c h.0 in
    rw (last_slash-none base h.1, last_slash, other) refl
  where
    differ : (c : ℕ) → c ≢ b'/' → (c == b'/') ≡ false
    differ c h = ground arith

last_slash-append :
    (dir base : Bytes) → NoSlash base → last_slash (dir ++ b'/' ∷ base) ≡ some (length dir)
unfolding last_slash
last_slash-append [] base h = rw (last_slash-none base h, last_slash) refl
last_slash-append (c ∷ dir) base h = rw (last_slash-append dir base h, last_slash) refl

take-parent : (dir base : Bytes) (c : ℕ) → take (suc (length dir)) (dir ++ c ∷ base) ≡ dir ++ c ∷ []
take-parent [] base c = refl
take-parent (a ∷ dir) base c = ap (◌∷◌ a) (take-parent dir base c)

-- The parent of a path with a last part: what stands before that, with the slash.
pub parent_of-append :
    (dir base : Bytes)
    → 0 < length dir
    → NoSlash base
    → parent_of (dir ++ b'/' ∷ base) ≡ some (dir ++ b'/' ∷ [])
unfolding parent_of
parent_of-append [] base h plain = absurd (omega arith)
parent_of-append (c ∷ dir) base h plain =
    rw (last_slash-append (c ∷ dir) base plain, parent_of)
      (ap some (take-parent (c ∷ dir) base b'/'))

-- The end of a text that is not empty.
snoc :
    (base : Bytes)
    → NoSlash base
    → 0 < length base
    → (s : Bytes) × (c : ℕ) × (base ≡ s ++ c ∷ []) × (c ≢ b'/')
snoc [] plain h = absurd (omega arith)
snoc (c ∷ []) plain h = ([], c, refl, plain.0)
snoc (c ∷ a ∷ base) plain h =
    let (s, z, p, other) = snoc (a ∷ base) plain.1 (omega arith) in (c ∷ s, z, ap (◌∷◌ c) p, other)

pub strip-append :
    (dir base : Bytes) (n : ℕ)
    → NoSlash base
    → 0 < length base
    → let q = dir ++ b'/' ∷ base in strip (length (q ++ slashes n)) (q ++ slashes n) ≡ path q
strip-append dir base n plain some_base =
    let (s, c, p, other) = snoc base plain some_base in
    let front = dir ++ b'/' ∷ s in
    let split : dir ++ b'/' ∷ base ≡ front ++ c ∷ [] =
      ap (λ b. dir ++ b'/' ∷ b) p ∙ sym (append_assoc dir (b'/' ∷ s) (c ∷ [])) in
    let size : length ((front ++ c ∷ []) ++ slashes n) ≡ suc (length front) + n = omega (
      arith,
      length-append (front ++ c ∷ []) (slashes n),
      length-append front (c ∷ []),
      length-slashes n,
    ) in
    rw split (
      ap (λ k. strip k ((front ++ c ∷ []) ++ slashes n)) size
      ∙ strip-slashes front c n n (omega (arith, length-append dir (b'/' ∷ s))) other (omega arith))
  where
    length-slashes : (n : ℕ) → length (slashes n) ≡ n
    length-slashes zero = refl
    length-slashes (suc n) = ap suc (length-slashes n)

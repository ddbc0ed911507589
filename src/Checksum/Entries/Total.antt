-- ===== src/Checksum/Entries/Total.antt =====
-- `Parse` ends.
use xrootd_hdfs.Base.{
  ℕ, zero, suc, ◌+◌, ◌≤◌, ◌<◌, List, [], ◌∷◌, ◌++◌, Bytes, Option, some, length, ◌==◌, ◌≡◌, refl,
  ap, inl, inr, arith, Bool-cases, Option-cases, List-cases,
}
use xrootd_hdfs.Checksum.Entries.{
  ChecksumValue, Parsed, until_nul, skip_spaces, first_word, after_word, entry_of, parse_rest,
  parse_loop, parse,
}

length-after_word-le : (s : Bytes) → length (first_word s) + length (after_word s) ≡ length s
unfolding first_word after_word
length-after_word-le [] = omega arith
length-after_word-le (c ∷ s) = ground (arith, length-after_word-le s)

length-skip_spaces-le : (s : Bytes) → length (skip_spaces s) ≤ length s
unfolding skip_spaces
length-skip_spaces-le [] = omega arith
length-skip_spaces-le (c ∷ s) = ground (arith, length-skip_spaces-le s)

parse_rest_total :
    (again : Bytes → Option Parsed) (s : Bytes) (result : List ChecksumValue)
    → ((t : Bytes) → length t < length s → (r : Parsed) × (again t ≡ some r))
    → (r : Parsed) × (parse_rest again s result ≡ some r)
unfolding parse_rest
parse_rest_total again [] result more = (_, refl)
parse_rest_total again (c ∷ []) result more = elim (Bool-cases (c == 10)) [
  | inl t ↦ rw t (_, refl)
  | inr t ↦ rw t (_, refl)
]
parse_rest_total again (c ∷ d ∷ s) result more = elim (Bool-cases (c == 10)) [
  | inl t ↦ rw (t, parse_rest) (more (d ∷ s) (omega arith))
  | inr t ↦ rw (t, parse_rest) (_, refl)
]

parse_loop_total :
    (fuel : ℕ) (ptr : Bytes) (result : List ChecksumValue)
    → length ptr < fuel
    → (r : Parsed) × (parse_loop fuel ptr result ≡ some r)
unfolding parse_loop
parse_loop_total zero ptr result h = absurd (omega arith)
parse_loop_total (suc fuel) ptr result h = elim (List-cases (first_word (skip_spaces ptr))) [
  | inl none_left ↦ rw (none_left, parse_loop) (_, refl)
  | inr (c, word, e) ↦
      rw (e, parse_loop)
        (elim (Option-cases (entry_of (c ∷ word))) [
          | inl bad ↦ rw bad (_, refl)
          | inr (entry, good) ↦ rw good (
              parse_rest_total _ (after_word (skip_spaces ptr)) _ λ t shorter.
                parse_loop_total fuel t (result ++ entry ∷ []) (
                  omega (
                    arith,
                    shorter,
                    ap length e,
                    length-after_word-le (skip_spaces ptr),
                    length-skip_spaces-le ptr,
                  )))
        ])
]

-- `Parse` ends on every text: its fuel never runs out.
pub parse_total : (contents : Bytes) → (r : Parsed) × (parse contents ≡ some r)
unfolding parse
parse_total contents =
    let text = until_nul contents in parse_loop_total (suc (length text)) text [] (omega arith)

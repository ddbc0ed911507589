-- ===== src/Checksum/Entries/RoundTrip.antt =====
-- `Parse` reads back what `SetMultiple` writes.
use xrootd_hdfs.Base.{
  ℕ, zero, suc, pos, ◌≤◌, ◌<◌, List, [], ◌∷◌, ◌++◌, map, Bytes, false, Option, some, length, ◌≡◌,
  ◌≢◌, refl, sym, ap, ◌∙◌, arith, All, All-append, append_assoc, length-append,
}
use xrootd_hdfs.Text.{is_space, to_upper}
use xrootd_hdfs.Checksum.Entries.{
  ChecksumValue, Parsed, until_nul, skip_spaces, first_word, after_word, cut_at_colon, entry_of,
  parse_rest, parse_loop, parse, upper, render,
}

-- A byte of a word: no blank and no NUL. A name has no colon either.
abbrev pub InWord : ℕ → Type 0
InWord c = (is_space c ≡ false) × (c ≢ 0)

abbrev pub InName : ℕ → Type 0
InName c = (is_space c ≡ false) × (c ≢ 0) × (c ≢ b':')

-- A checksum that can be written as a line.
pub record IsEntry (v : ChecksumValue) : Type 0 where
  pub name : All InName v.first
  pub value : All InWord v.second
  pub some_value : v.second ≢ []

abbrev pub upper_entry : ChecksumValue → ChecksumValue
upper_entry v = record v { first = upper v.first }

to_upper-InName : (c : ℕ) → InName c → InName (to_upper c)
to_upper-InName c h = ground arith

upper-InName : (name : Bytes) → All InName name → All InName (upper name)
unfolding upper
upper-InName [] h = tt
upper-InName (c ∷ name) h = (to_upper-InName c h.0, upper-InName name h.1)

name-InWord : (name : Bytes) → All InName name → All InWord name
name-InWord [] h = tt
name-InWord (c ∷ name) h = ((h.0.0, h.0.1), name-InWord name h.1)

-- The word at the front of a text is what stands before the newline.
first_word_lem : (w rest : Bytes) → All InWord w → first_word (w ++ 10 ∷ rest) ≡ w
unfolding first_word
first_word_lem [] rest h = refl
first_word_lem (c ∷ w) rest h = rw h.0.0 (ap (◌∷◌ c) (first_word_lem w rest h.1))

after_word_lem : (w rest : Bytes) → All InWord w → after_word (w ++ 10 ∷ rest) ≡ 10 ∷ rest
unfolding after_word
after_word_lem [] rest h = refl
after_word_lem (c ∷ w) rest h = rw h.0.0 (after_word_lem w rest h.1)

skip_spaces_lem : (c : ℕ) (s : Bytes) → is_space c ≡ false → skip_spaces (c ∷ s) ≡ c ∷ s
unfolding skip_spaces
skip_spaces_lem c s h = rw h refl

cut_at_colon_lem :
    (name val : Bytes) → All InName name → cut_at_colon (name ++ b':' ∷ val) ≡ some (name, val)
unfolding cut_at_colon
cut_at_colon_lem [] val h = refl
cut_at_colon_lem (c ∷ name) val h = ground (arith, cut_at_colon_lem name val h.1)

entry_of_lem :
    (name val : Bytes)
    → All InName name
    → val ≢ []
    → entry_of (name ++ b':' ∷ val) ≡ some (record { first = name; second = val })
unfolding entry_of
entry_of_lem name [] h nonempty = absurd (nonempty refl)
entry_of_lem name (c ∷ val) h nonempty =
    ground (arith, cut_at_colon_lem name (c ∷ val) h, length-append name (b':' ∷ c ∷ val))

word_of : ChecksumValue → Bytes
word_of v = upper v.first ++ b':' ∷ v.second

word_of-InWord : (v : ChecksumValue) → IsEntry v → All InWord (word_of v)
unfolding word_of
word_of-InWord v h =
    All-append InWord (upper v.first) (b':' ∷ v.second)
      (name-InWord (upper v.first) (upper-InName v.first h.name)) (ground arith, h.value)

entry_of-word_of : (v : ChecksumValue) → IsEntry v → entry_of (word_of v) ≡ some (upper_entry v)
unfolding word_of
entry_of-word_of v h =
    entry_of_lem (upper v.first) v.second (upper-InName v.first h.name) h.some_value

append-ne-nil : (s t : Bytes) (c : ℕ) → s ++ c ∷ t ≢ []
append-ne-nil [] t c = λ e. cc
append-ne-nil (d ∷ s) t c = λ e. cc

render-cons :
    (v : ChecksumValue) (values : List ChecksumValue)
    → render (v ∷ values) ≡ word_of v ++ 10 ∷ render values
unfolding render word_of
render-cons v values = sym (append_assoc (upper v.first) (b':' ∷ v.second) (10 ∷ render values))

-- One round of the loop reads one line.
parse_line :
    (fuel : ℕ) (w rest : Bytes) (e : ChecksumValue) (result : List ChecksumValue)
    → All InWord w
    → w ≢ []
    → entry_of w ≡ some e
    → parse_loop (suc fuel) (w ++ 10 ∷ rest) result
      ≡ parse_rest (λ next. parse_loop fuel next (result ++ e ∷ [])) (10 ∷ rest) (result ++ e ∷ [])
unfolding parse_loop
parse_line fuel [] rest e result h nonempty p = absurd (nonempty refl)
parse_line fuel (c ∷ w) rest e result h nonempty p =
    rw
      (
        skip_spaces_lem c (w ++ 10 ∷ rest) h.0.0,
        first_word_lem (c ∷ w) rest h,
        p,
        skip_spaces_lem c (w ++ 10 ∷ rest) h.0.0,
        after_word_lem (c ∷ w) rest h,
        parse_loop,
      )
      refl

parse_rest_more :
    (again : Bytes → Option Parsed) (s : Bytes) (result : List ChecksumValue)
    → s ≢ []
    → parse_rest again (10 ∷ s) result ≡ again s
unfolding parse_rest
parse_rest_more again [] result h = absurd (h refl)
parse_rest_more again (d ∷ s) result h = refl

parse_loop-render :
    (fuel : ℕ) (v : ChecksumValue) (values result : List ChecksumValue)
    → All IsEntry (v ∷ values)
    → length values < fuel
    → parse_loop fuel (render (v ∷ values)) result
      ≡ some (pos 0, result ++ map upper_entry (v ∷ values))
parse_loop-render zero v values result h f = absurd (omega arith)
parse_loop-render (suc fuel) v [] result h f = rw (render-cons v []) (
    parse_line fuel (word_of v) (render []) _ result (word_of-InWord v h.0)
      (unfold word_of in append-ne-nil (upper v.first) v.second b':') (entry_of-word_of v h.0)
    ∙ unfold parse_rest render in refl)
parse_loop-render (suc fuel) v (w ∷ values) result h f = rw (render-cons v (w ∷ values)) (
    parse_line fuel (word_of v) (render (w ∷ values)) _ result (word_of-InWord v h.0)
      (unfold word_of in append-ne-nil (upper v.first) v.second b':') (entry_of-word_of v h.0)
    ∙ parse_rest_more _ (render (w ∷ values)) _
        (unfold render in append-ne-nil (upper w.first) _ b':')
    ∙ parse_loop-render fuel w values _ h.1 (omega arith)
    ∙ ap (λ r. some (pos 0, r)) (append_assoc result (upper_entry v ∷ []) _))

pub NonNul-until_nul : (s : Bytes) → All (λ c. c ≢ 0) s → until_nul s ≡ s
unfolding until_nul
NonNul-until_nul [] h = refl
NonNul-until_nul (c ∷ s) h = ground (arith, NonNul-until_nul s h.1)

word-NonNul : (s : Bytes) → All InWord s → All (λ c. c ≢ 0) s
word-NonNul [] h = tt
word-NonNul (c ∷ s) h = (h.0.1, word-NonNul s h.1)

pub render-NonNul :
    (values : List ChecksumValue) → All IsEntry values → All (λ c. c ≢ 0) (render values)
render-NonNul [] h = unfold render in tt
render-NonNul (v ∷ values) h = rw (render-cons v values) (
    All-append (λ c. c ≢ 0) (word_of v) (10 ∷ render values)
      (word-NonNul (word_of v) (word_of-InWord v h.0)) (ground arith, render-NonNul values h.1))

length-le-render : (values : List ChecksumValue) → length values ≤ length (render values)
length-le-render [] = omega arith
length-le-render (v ∷ values) =
    rw (render-cons v values)
      (omega (arith, length-le-render values, length-append (word_of v) (10 ∷ render values)))

-- `Parse` reads back every list of checksums that `SetMultiple` writes, in order and with no error, if
-- no name or value holds a blank or a NUL, no name a colon, and no value is empty. The names come back
-- in upper case.
pub parse-render :
    (values : List ChecksumValue)
    → All IsEntry values
    → parse (render values) ≡ some (pos 0, map upper_entry values)
unfolding parse
parse-render values h =
    rw (NonNul-until_nul (render values) (render-NonNul values h)) (in_loop values h)
  where
    in_loop :
        (values : List ChecksumValue)
        → All IsEntry values
        → parse_loop (suc (length (render values))) (render values) []
          ≡ some (pos 0, map upper_entry values)
    in_loop [] h = unfold parse_loop render skip_spaces first_word in refl
    in_loop (v ∷ values) h =
        parse_loop-render (suc (length (render (v ∷ values)))) v values [] h
          (omega (arith, length-le-render (v ∷ values)))

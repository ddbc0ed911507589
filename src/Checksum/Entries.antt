-- ===== src/Checksum/Entries.antt =====
-- src/XrdHdfsChecksum.cc: the text of a checksum file. `Parse` reads it, and the loop of `SetMultiple`
-- writes it, a line `NAME:value` for each checksum.
pub mod RoundTrip
pub mod Total
mod Tests
use xrootd_hdfs.Base.{
  ℕ, zero, suc, ℤ, pos, neg, ◌+◌, List, [], ◌∷◌, ◌++◌, map, Bytes, Bool, true, false, Option, none,
  some, length, ltb, ◌==◌, if◌then◌else◌,
}
use xrootd_hdfs.Env.{eio}
use xrootd_hdfs.Text.{is_space, to_upper}

-- `ChecksumValue`, a pair of strings.
pub record ChecksumValue : Type 0 where
  pub first : Bytes
  pub second : Bytes

-- `c_str()`, read as C text: up to the first NUL.
unfoldable pub until_nul : Bytes → Bytes
until_nul [] = []
until_nul (c ∷ s) = if c == 0 then [] else c ∷ until_nul s

-- The parts of `sscanf(ptr, "%s%n", …)`: the blanks, the word, and what stands behind the word.
pub skip_spaces : Bytes → Bytes
skip_spaces [] = []
skip_spaces (c ∷ s) = if is_space c then skip_spaces s else c ∷ s

pub first_word : Bytes → Bytes
first_word [] = []
first_word (c ∷ s) = if is_space c then [] else c ∷ first_word s

pub after_word : Bytes → Bytes
after_word [] = []
after_word (c ∷ s) = if is_space c then c ∷ s else after_word s

-- `strchr(word, ':')`: the text before the colon and the text behind it.
pub cut_at_colon : Bytes → Option (Bytes × Bytes)
cut_at_colon [] = none
cut_at_colon (c ∷ s) = elim (c == b':') [
  | true ↦ some ([], s)
  | false ↦ elim (cut_at_colon s) [ none ↦ none | some (name, val) ↦ some (c ∷ name, val) ]
]

-- The entry that a word spells, or `none` for the three errors.
pub entry_of : Bytes → Option ChecksumValue
unfolding cut_at_colon
entry_of word = if ltb (length word) 2 then none else (elim (cut_at_colon word) [
  | none ↦ none
  | some (name, []) ↦ none
  | some (name, c ∷ val) ↦ some (record { first = name; second = c ∷ val })
])

abbrev pub Parsed : Type 0
Parsed = ℤ × List ChecksumValue

-- What follows an entry: the end, a newline and the end, a newline and more, or an error. `again` is the
-- next round, at the text behind the newline.
pub parse_rest : (Bytes → Option Parsed) → Bytes → List ChecksumValue → Option Parsed
parse_rest again [] result = some (pos 0, result)
parse_rest again (c ∷ []) result = if c == 10 then some (pos 0, result) else some (neg eio, result)
parse_rest again (c ∷ d ∷ s) result = elim (c == 10) [
  | true ↦ again (d ∷ s)
  | false ↦ some (neg eio, result)
]

-- The loop, with fuel for each byte; `none` says that the fuel ran out.
pub parse_loop : ℕ → Bytes → List ChecksumValue → Option Parsed
parse_loop zero ptr result = none
parse_loop (suc fuel) ptr result =
    let text = skip_spaces ptr in
    elim (first_word text) [
      | [] ↦ some (pos 0, result)
      | c ∷ word ↦ elim (entry_of (c ∷ word)) [
        | none ↦ some (neg eio, result)
        | some entry ↦
            parse_rest (λ next. parse_loop fuel next (result ++ entry ∷ [])) (after_word text)
              (result ++ entry ∷ [])
      ]
    ]

-- `Parse`: its return code, and the entries that it added.
unfoldable pub parse : Bytes → Option Parsed
unfolding parse_loop until_nul skip_spaces first_word after_word entry_of parse_rest
parse contents = let text = until_nul contents in parse_loop (suc (length text)) text []

unfoldable pub upper : Bytes → Bytes
upper name = map to_upper name

-- `ss << cur_checksum_name << ":" << iter->second << std::endl`.
unfoldable pub render : List ChecksumValue → Bytes
unfolding upper
render [] = []
render (v ∷ values) = upper v.first ++ b':' ∷ (v.second ++ 10 ∷ render values)

-- ===== src/Text.antt =====
-- Text as bytes: what the sources use of iostreams, printf and <strings.h>, and the shape of the words
-- that they write.
pub mod Words
use xrootd_hdfs.Base.{
  ℕ, zero, suc, ◌+◌, ◌-◌, ◌/◌, ◌%◌, ◌^◌, [], ◌∷◌, Bytes, Bool, true, false, ◌&&◌, ◌||◌, ltb, leb,
  ◌==◌, ◌≢◌, All, if◌then◌else◌,
}

-- `stream << n` for an unsigned number, with fuel for each digit.
digits_of : ℕ → ℕ → Bytes → Bytes
digits_of zero n out = out
digits_of (suc fuel) n out =
    let more = digits_of fuel (n / 10) ((b'0' + n % 10) ∷ out) in
    if ltb n 10 then (b'0' + n % 10) ∷ out else more

unfoldable pub decimal : ℕ → Bytes
unfolding digits_of
decimal n = digits_of (suc n) n []

abbrev hex_digit : ℕ → ℕ
hex_digit d = if ltb d 10 then b'0' + d else b'a' + (d - 10)

-- `human_readable_evp`: two hexadecimal digits for each byte.
unfoldable pub human_readable_evp : Bytes → Bytes
human_readable_evp [] = []
human_readable_evp (b ∷ evp) = hex_digit (b / 16) ∷ hex_digit (b % 16) ∷ human_readable_evp evp

-- The bytes of `htonl(n)` in memory.
abbrev pub htonl_bytes : ℕ → Bytes
htonl_bytes n = n / 2 ^ 24 % 256 ∷ n / 2 ^ 16 % 256 ∷ n / 2 ^ 8 % 256 ∷ n % 256 ∷ []

-- `::toupper` and `::tolower` in the C locale.
abbrev pub to_upper : ℕ → ℕ
to_upper c = if leb b'a' c && leb c b'z' then c - 32 else c

abbrev pub to_lower : ℕ → ℕ
to_lower c = if leb b'A' c && leb c b'Z' then c + 32 else c

-- `!strcasecmp(s, t)`.
abbrev pub eq_ignoring_case : Bytes → Bytes → Bool
eq_ignoring_case [] [] = true
eq_ignoring_case [] (_ ∷ _) = false
eq_ignoring_case (_ ∷ _) [] = false
eq_ignoring_case (a ∷ s) (b ∷ t) = (to_lower a == to_lower b) && eq_ignoring_case s t

-- `isspace` in the C locale.
abbrev pub is_space : ℕ → Bool
is_space c = c == 32 || (leb 9 c && leb c 13)

-- A text with no slash.
abbrev pub NoSlash : Bytes → Type 0
NoSlash = All (λ c. c ≢ b'/')

-- ===== src/Bootstrap/Reading.antt =====
-- `DetermineEnvironment` ends, and never reads outside its buffer.
use xrootd_hdfs.Base.{
  ℕ, zero, suc, ◌+◌, ◌-◌, ◌≤◌, ◌<◌, some, [], ◌∷◌, ◌++◌, Bytes, true, length, drop, get_or,
  overwrite, ltb, ◌==◌, ◌≡◌, refl, ap, ◌∙◌, inl, inr, arith, Bool-cases, List-cases, length-append,
  length-drop,
}
use xrootd_hdfs.Checksum.Entries.{until_nul}
use xrootd_hdfs.Bootstrap.{
  Scan, Environ, scan_entry, scan_buffer, take_line, after_scan, read_environ, scan_output,
  first_scan, zero_bytes,
}

lt→ltb : (a b : ℕ) → a < b → ltb a b ≡ true
lt→ltb a b h = ground arith

-- A text that has a NUL at `i`, or ends before it, has at most `i` bytes before its first NUL.
length-until_nul-le : (s : Bytes) (i : ℕ) → get_or s i 0 ≡ 0 → length (until_nul s) ≤ i
unfolding until_nul
length-until_nul-le [] i h = omega arith
length-until_nul-le (c ∷ s) zero h = rw h (omega arith)
length-until_nul-le (c ∷ s) (suc i) h = ground (arith, length-until_nul-le s i h)

get_or_at : (s : Bytes) {i k : ℕ} → i ≡ k → get_or s i 0 ≡ get_or s k 0
get_or_at s e = ap (λ k. get_or s k 0) e

get_or-drop : (n : ℕ) (s : Bytes) (i : ℕ) → get_or (drop n s) i 0 ≡ get_or s (n + i) 0
get_or-drop zero s i = let e : i ≡ 0 + i = omega arith in get_or_at s e
get_or-drop (suc n) [] i = refl
get_or-drop (suc n) (c ∷ s) i =
    let e : suc (n + i) ≡ suc n + i = omega arith in get_or-drop n s i ∙ get_or_at (c ∷ s) e

-- A NUL behind the bytes and the NUL that are stored in front of it is not lost.
get_or-append :
    (line rest : Bytes) (i : ℕ)
    → length line ≤ i
    → get_or rest (i - suc (length line)) 0 ≡ 0
    → get_or ((line ++ 0 ∷ []) ++ rest) i 0 ≡ 0
get_or-append [] rest zero h z = refl
get_or-append [] rest (suc i) h z = let e : i ≡ suc i - 1 = omega arith in get_or_at rest e ∙ z
get_or-append (d ∷ line) rest zero h z = absurd (omega arith)
get_or-append (d ∷ line) rest (suc i) h z =
    let e : i - suc (length line) ≡ suc i - suc (suc (length line)) = omega arith in
    get_or-append line rest i (omega arith) (get_or_at rest e ∙ z)

-- The buffer behind a call of `fgets`: it ends in two NULs, since `fgets` is given one byte less than
-- the buffer has.
pub record IsReady (mem : Bytes) : Type 0 where
  pub size : length mem ≡ 8192
  pub nul : get_or mem 8190 0 ≡ 0
  pub last_nul : get_or mem 8191 0 ≡ 0

stored : Bytes → Bytes → Bytes
stored mem line = overwrite mem 0 (line ++ 0 ∷ [])

stored-IsReady : (mem line : Bytes) → IsReady mem → length line ≤ 8190 → IsReady (stored mem line)
unfolding stored
stored-IsReady mem line r h = record {
  size = omega (
    arith,
    length-append (line ++ 0 ∷ []) (drop k mem),
    length-append line (0 ∷ []),
    length-drop k mem,
    r.size,
  );
  nul = elim (Bool-cases (length line == 8190)) [
    | inl full ↦ get_or-append line (drop k mem) 8190 h (past full)
    | inr room ↦ get_or-append line (drop k mem) 8190 h (behind 8190 (ground arith) r.nul)
  ];
  last_nul =
      get_or-append line (drop k mem) 8191 (omega arith) (behind 8191 (omega arith) r.last_nul);
}
  where
    k : ℕ
    k = 0 + length (line ++ 0 ∷ [])

    behind :
        (i : ℕ)
        → suc (length line) ≤ i
        → get_or mem i 0 ≡ 0
        → get_or (drop k mem) (i - suc (length line)) 0 ≡ 0
    behind i lo z =
        let e : k + (i - suc (length line)) ≡ i = omega (arith, length-append line (0 ∷ [])) in
        get_or-drop k mem (i - suc (length line)) ∙ get_or_at mem e ∙ z

    past : (length line == 8190) ≡ true → get_or (drop k mem) (8190 - suc (length line)) 0 ≡ 0
    past full =
        let e : k + (8190 - suc (length line)) ≡ 8191 =
          ground (arith, length-append line (0 ∷ [])) in
        get_or-drop k mem (8190 - suc (length line)) ∙ get_or_at mem e ∙ r.last_nul

-- The inner loop ends, inside the buffer.
scan_buffer_total :
    (fuel : ℕ) (mem : Bytes) (cur : ℕ) (s : Scan)
    → IsReady mem
    → cur ≤ 8191
    → 8191 - cur < fuel
    → (s' : Scan) × (cur' : ℕ) × (scan_buffer fuel mem cur s ≡ some (s', cur')) × (cur' ≤ 8191)
unfolding scan_buffer
scan_buffer_total zero mem cur s r h f = absurd (omega arith)
scan_buffer_total (suc fuel) mem cur s r h f =
    let in_buffer = lt→ltb cur (length mem) (omega (arith, r.size)) in
    elim (List-cases (until_nul (drop cur mem))) [
      | inl none_left ↦ rw (in_buffer, scan_buffer, none_left, scan_buffer) (s, cur, refl, h)
      | inr (c, text, some_left) ↦
          let e1 : cur + (8191 - cur) ≡ 8191 = omega arith in
          let b1 : length (until_nul (drop cur mem)) ≤ 8191 - cur =
            length-until_nul-le (drop cur mem) (8191 - cur)
              (get_or-drop cur mem (8191 - cur) ∙ get_or_at mem e1 ∙ r.last_nul) in
          let before : cur ≤ 8190 = omega (arith, ap length some_left, b1) in
          let e2 : cur + (8190 - cur) ≡ 8190 = omega arith in
          let b2 : length (until_nul (drop cur mem)) ≤ 8190 - cur =
            length-until_nul-le (drop cur mem) (8190 - cur)
              (get_or-drop cur mem (8190 - cur) ∙ get_or_at mem e2 ∙ r.nul) in
          rw (in_buffer, scan_buffer, some_left, scan_buffer)
            (scan_buffer_total fuel mem (cur + length (c ∷ text) + 1) (scan_entry s (c ∷ text)) r
              (omega (arith, ap length some_left, b2)) (omega (arith, ap length some_left, b2)))
    ]

take_line_bounds :
    (n : ℕ) (stream : Bytes)
    → (length (take_line n stream).0 ≤ n)
      × (length (take_line n stream).0 + length (take_line n stream).1 ≡ length stream)
unfolding take_line
take_line_bounds zero stream = (omega arith, omega arith)
take_line_bounds (suc n) [] = (omega arith, omega arith)
take_line_bounds (suc n) (c ∷ stream) = elim (Bool-cases (c == 10)) [
  | inl newline ↦ rw (newline, take_line) (omega arith, omega arith)
  | inr other ↦
      let (p, q) = take_line_bounds n stream in rw (other, take_line) (omega arith, omega arith)
]

-- A round takes at least one byte.
take_line_some : (n c : ℕ) (stream : Bytes) → 0 < n → 0 < length (take_line n (c ∷ stream)).0
unfolding take_line
take_line_some zero c stream h = absurd (omega arith)
take_line_some (suc n) c stream h = elim (Bool-cases (c == 10)) [
  | inl newline ↦ rw (newline, take_line) (omega arith)
  | inr other ↦ rw (other, take_line) (omega arith)
]

shorter :
    (c fuel : ℕ) (stream : Bytes)
    → length (c ∷ stream) < suc fuel
    → length (take_line 8190 (c ∷ stream)).1 < fuel
shorter c fuel stream h =
    less (length (c ∷ stream)) (length (take_line 8190 (c ∷ stream)).0)
      (length (take_line 8190 (c ∷ stream)).1) (take_line_bounds 8190 (c ∷ stream)).1
      (take_line_some 8190 c stream (omega arith)) h
  where
    less : (n a b : ℕ) → a + b ≡ n → 0 < a → n < suc fuel → b < fuel
    less n a b e p h = omega arith

length-zero_bytes : (n : ℕ) → length (zero_bytes n) ≡ n
unfolding zero_bytes
length-zero_bytes zero = refl
length-zero_bytes (suc n) = ap suc (length-zero_bytes n)

zero_at : (n i : ℕ) → get_or (zero_bytes n) i 0 ≡ 0
unfolding zero_bytes
zero_at zero i = refl
zero_at (suc n) zero = refl
zero_at (suc n) (suc i) = zero_at n i

enough : (cur : ℕ) → 8191 - cur < 8192
enough cur = omega arith

-- The outer loop ends, inside the buffer, with fuel for each byte of the output.
read_environ_total :
    (fuel : ℕ) (mem : Bytes) (cur : ℕ) (s : Scan) (stream : Bytes)
    → IsReady mem
    → cur ≤ 8191
    → length stream < fuel
    → (s' : Scan) × (read_environ fuel mem cur s stream ≡ some s')
unfolding read_environ stored
read_environ_total zero mem cur s stream r h f = absurd (omega arith)
read_environ_total (suc fuel) mem cur s [] r h f = (s, refl)
read_environ_total (suc fuel) mem cur s (c ∷ stream) r h f =
    let (fits, sizes) = take_line_bounds 8190 (c ∷ stream) in
    let line = (take_line 8190 (c ∷ stream)).0 in
    let rest = (take_line 8190 (c ∷ stream)).1 in
    let mem' = stored mem line in
    let r' = stored-IsReady mem line r fits in
    let (s1, cur1, p, h1) = scan_buffer_total 8192 mem' cur s r' h (enough cur) in
    let (s2, q) = read_environ_total fuel mem' cur1 s1 rest r' h1 (shorter c fuel stream f) in
    (s2, ap (after_scan λ s' cur'. read_environ fuel mem' cur' s' rest) p ∙ q)

-- Whatever the child prints, the loops of `DetermineEnvironment` end and read no byte outside the buffer:
-- though `cur_pos` goes on from call to call of `fgets`, two NULs stay at the end of the buffer.
pub scan_output_total :
    (output : Bytes) (environ : Environ) → (s : Scan) × (scan_output output environ ≡ some s)
unfolding scan_output
scan_output_total output environ =
    read_environ_total (suc (length output)) (zero_bytes 8192) 0 (first_scan environ) output
      (record {
        size = length-zero_bytes 8192;
        nul = zero_at 8192 8190;
        last_nul = zero_at 8192 8191;
      })
      (omega arith) (omega arith)

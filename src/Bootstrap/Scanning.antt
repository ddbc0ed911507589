-- ===== src/Bootstrap/Scanning.antt =====
-- The loops of `DetermineEnvironment` over an output that is made of strings, each with its NUL.
use xrootd_hdfs.Base.{
  ℕ, zero, suc, ◌+◌, ◌≤◌, ◌<◌, Option, none, some, List, [], ◌∷◌, ◌++◌, Bytes, true, false, length,
  drop, overwrite, ltb, ◌==◌, ◌≡◌, refl, sym, ap, ◌∙◌, arith, All, drop_past, append_assoc,
  All-append,
}
use xrootd_hdfs.Checksum.Entries.{until_nul}
use xrootd_hdfs.Bootstrap.{
  Scan, Environ, buffer_size, scan_entry, scan_buffer, take_line, after_scan, read_environ,
  scan_output, first_scan, zero_bytes,
}

-- A text with no NUL and no newline.
abbrev pub IsPlain : Bytes → Type 0
IsPlain = All (λ c. ((c == 0) ≡ false) × ((c == 10) ≡ false))

abbrev pub IsPlainVar : Option Bytes → Type 0
IsPlainVar none = Unit
IsPlainVar (some value) = IsPlain value

unfoldable pub flat : List Bytes → Bytes
flat [] = []
flat (e ∷ es) = e ++ 0 ∷ flat es

until_nul-append : (s t : Bytes) → IsPlain s → until_nul (s ++ 0 ∷ t) ≡ s
unfolding until_nul
until_nul-append [] t h = refl
until_nul-append (c ∷ s) t h = rw (h.0.0) (ap (◌∷◌ c) (until_nul-append s t h.1))

take_line_all :
    (n : ℕ) (s : Bytes) → All (λ c. (c == 10) ≡ false) s → length s ≤ n → take_line n s ≡ (s, [])
unfolding take_line
take_line_all zero [] h f = refl
take_line_all zero (c ∷ s) h f = absurd (omega arith)
take_line_all (suc n) [] h f = refl
take_line_all (suc n) (c ∷ s) h f =
    rw (h.0, take_line)
      (ap (λ r. let (line, rest) = r in (c ∷ line, rest)) (take_line_all n s h.1 (omega arith)))

no_newline : (s : Bytes) → IsPlain s → All (λ c. (c == 10) ≡ false) s
no_newline [] h = tt
no_newline (c ∷ s) h = (h.0.1, no_newline s h.1)

-- The strings of a buffer, in order.
unfoldable pub scan_entries : Scan → List Bytes → Scan
scan_entries s [] = s
scan_entries s (e ∷ es) = scan_entries (scan_entry s e) es

abbrev pub IsEntry : Bytes → Type 0
IsEntry e = (0 < length e) × IsPlain e

flat_no_newline : (es : List Bytes) → All IsEntry es → All (λ c. (c == 10) ≡ false) (flat es)
unfolding flat
flat_no_newline [] h = tt
flat_no_newline (e ∷ es) h =
    All-append (λ c. (c == 10) ≡ false) e (0 ∷ flat es) (no_newline e h.0.1)
      (refl, flat_no_newline es h.1)

in_buffer : (cur : ℕ) (mem s : Bytes) (c : ℕ) → drop cur mem ≡ c ∷ s → ltb cur (length mem) ≡ true
in_buffer zero [] s c h = absurd (omega (arith, ap length h))
in_buffer (suc cur) [] s c h = absurd (omega (arith, ap length h))
in_buffer zero (d ∷ mem) s c h = ground arith
in_buffer (suc cur) (d ∷ mem) s c h = let p = in_buffer cur mem s c h in ground arith

head_of : (s t : Bytes) → ((c : ℕ) × (r : Bytes) × (s ++ 0 ∷ t ≡ c ∷ r))
head_of [] t = (0, t, refl)
head_of (c ∷ s) t = (c, s ++ 0 ∷ t, refl)

drop_entry :
    (cur : ℕ) (mem e rest : Bytes)
    → drop cur mem ≡ e ++ 0 ∷ rest
    → drop (cur + length e + 1) mem ≡ rest
drop_entry zero mem [] rest h = ap (drop 1) h
drop_entry zero mem (c ∷ e) rest h =
    let k : 0 + length (c ∷ e) + 1 ≡ length (c ∷ e) + 1 = omega arith in
    ap (λ n. drop n mem) k ∙ ap (drop (length (c ∷ e) + 1)) h ∙ drop_past 1 (c ∷ e) (0 ∷ rest)
drop_entry (suc cur) [] [] rest h = absurd (omega (arith, ap length h))
drop_entry (suc cur) [] (c ∷ e) rest h = absurd (omega (arith, ap length h))
drop_entry (suc cur) (d ∷ mem) e rest h =
    let k : suc cur + length e + 1 ≡ suc (cur + length e + 1) = omega arith in
    ap (λ n. drop n (d ∷ mem)) k ∙ drop_entry cur mem e rest h

-- The inner loop over the strings of a buffer, behind which a NUL stands.
scan_buffer_entries :
    (es : List Bytes) (fuel : ℕ) (mem rest : Bytes) (cur : ℕ) (s : Scan)
    → All IsEntry es
    → drop cur mem ≡ flat es ++ 0 ∷ rest
    → length es < fuel
    → (cur' : ℕ) × (scan_buffer fuel mem cur s ≡ some (scan_entries s es, cur'))
unfolding scan_buffer scan_entries flat
scan_buffer_entries es zero mem rest cur s h p f = absurd (omega arith)
scan_buffer_entries [] (suc fuel) mem rest cur s h p f =
    (cur, rw (in_buffer cur mem rest 0 p, scan_buffer, ap until_nul p, scan_buffer) refl)
scan_buffer_entries ([] ∷ es) (suc fuel) mem rest cur s h p f = absurd (omega (arith, h.0.0))
scan_buffer_entries ((c ∷ t) ∷ es) (suc fuel) mem rest cur s h p f =
    let e = c ∷ t in
    let at_entry : drop cur mem ≡ e ++ 0 ∷ (flat es ++ 0 ∷ rest) =
      p ∙ append_assoc e (0 ∷ flat es) (0 ∷ rest) in
    let found : until_nul (drop cur mem) ≡ e =
      ap until_nul at_entry ∙ until_nul-append e (flat es ++ 0 ∷ rest) h.0.1 in
    let (cur', q) =
      scan_buffer_entries es fuel mem rest (cur + length e + 1) (scan_entry s e) h.1
        (drop_entry cur mem e (flat es ++ 0 ∷ rest) at_entry) (omega arith) in
    (
      cur',
      rw
          (
            in_buffer cur mem (t ++ 0 ∷ (flat es ++ 0 ∷ rest)) c at_entry,
            scan_buffer,
            found,
            scan_buffer,
          )
          q,
    )

-- One call of `fgets` takes all of a short output.
read_environ_short :
    (fuel c : ℕ) (stream mem : Bytes) (es : List Bytes) (s : Scan)
    → flat es ≡ c ∷ stream
    → All IsEntry es
    → length (flat es) ≤ 8190
    → length es < 8192
    → read_environ (suc (suc fuel)) mem 0 s (c ∷ stream) ≡ some (scan_entries s es)
unfolding read_environ
read_environ_short fuel c stream mem es s p h f g =
    let line : take_line 8190 (c ∷ stream) ≡ (flat es, []) =
      ap (take_line 8190) (sym p) ∙ take_line_all 8190 (flat es) (flat_no_newline es h) f in
    let mem' = overwrite mem 0 (flat es ++ 0 ∷ []) in
    let (cur, q) =
      scan_buffer_entries es 8192 mem' (drop (0 + length (flat es ++ 0 ∷ [])) mem) 0 s h
        (append_assoc (flat es) (0 ∷ []) (drop (0 + length (flat es ++ 0 ∷ [])) mem)) g in
    ap
      (λ r.
        after_scan
          (λ s' cur'. read_environ (suc fuel) (overwrite mem 0 (r.0 ++ 0 ∷ [])) cur' s' r.1)
          (scan_buffer 8192 (overwrite mem 0 (r.0 ++ 0 ∷ [])) 0 s))
      line
    ∙ ap (after_scan λ s' cur'. read_environ (suc fuel) mem' cur' s' []) q

pub scan_output_entries :
    (es : List Bytes) (environ : Environ)
    → All IsEntry es
    → length (flat es) ≤ 8190
    → length es < 8192
    → scan_output (flat es) environ ≡ some (scan_entries (first_scan environ) es)
unfolding scan_output read_environ scan_entries flat
scan_output_entries [] environ h f g = refl
scan_output_entries ([] ∷ es) environ h f g = absurd (omega (arith, h.0.0))
scan_output_entries ((c ∷ e) ∷ es) environ h f g =
    read_environ_short (length (e ++ 0 ∷ flat es)) c (e ++ 0 ∷ flat es) (zero_bytes buffer_size)
      ((c ∷ e) ∷ es) (first_scan environ) refl h f g

-- ===== src/ReadAhead/Pieces.antt =====
-- What a read-ahead buffer has of the file, piece by piece of a call of `Read`.
use xrootd_hdfs.Base.{
  ℕ, is_neg, is_set, eq_ℤ, true, false, [], ◌∷◌, ◌+◌, ◌-◌, ◌≤◌, ◌<◌, ◌^◌, min, ◌&&◌, ◌≡◌, refl, sym,
  ap, ◌∙◌, inl, inr, Bytes, length, slice, take, drop, ltb, leb, if◌then◌else◌, arith, Bool-cases,
  ltb→lt, ltb→le, length-slice, length-drop, take_all, take-length, take-take, drop-take, drop-drop,
}
use xrootd_hdfs.Env.{Env, Pread, got, failed, eintr}
use xrootd_hdfs.Plugin.Errors.{emsg_neg}
use xrootd_hdfs.ReadAhead.{
  ReadBuf, contents, Reply, interrupted, broken, at_end, loaded, reply, Result, bytes, error,
  inside, front, count_front, add_size, answer,
}
use xrootd_hdfs.ReadAhead.Fill.{Answers, IsValid}

-- What a result says of the file: an error is negative, and bytes are the file's at the offset. A
-- request that the buffer could hold is answered in full, and no answer is empty before the end.
abbrev pub Correct : Bytes → ℕ → ℕ → ℕ → Result → Type 0
Correct file size offset blen (error rc) = is_neg rc ≡ true
Correct file size offset blen (bytes s) =
    (s ≡ slice file offset (length s))
    × (length s ≤ blen)
    × (blen ≤ size → s ≡ slice file offset blen)
    × (s ≡ [] → slice file offset blen ≡ [])

-- A run that lies in what two lists have in common is in both.
pub slice_common :
    (m f : Bytes) (len i n : ℕ) → take len m ≡ take len f → i + n ≤ len → slice m i n ≡ slice f i n
slice_common m f len i n e h =
    sym (drop-take i n m)
    ∙ ap (drop i)
        (sym (take-take (i + n) len m h) ∙ ap (take (i + n)) e ∙ take-take (i + n) len f h)
    ∙ drop-take i n f

-- What the buffer holds from `offset` on.
pub slice_held :
    (file : Bytes) (b : ReadBuf) (offset n : ℕ)
    → IsValid file b
    → b.offset ≤ offset
    → offset + n ≤ b.offset + b.len
    → slice (contents b.mem) (offset - b.offset) n ≡ slice file offset n
slice_held file b offset n v lo hi =
    slice_common (contents b.mem) (drop b.offset file) b.len (offset - b.offset) n v.held
      (omega arith)
    ∙ ap (take n)
        (drop-drop (offset - b.offset) b.offset file ∙ ap (λ k. drop k file) (omega arith))

-- A full answer meets the other parts of `Correct`.
pub full_Correct :
    (file : Bytes) (size offset blen : ℕ) (s : Bytes)
    → s ≡ slice file offset blen
    → Correct file size offset blen (bytes s)
full_Correct file size offset blen s e = (
  e
      ∙ sym (take-length blen (drop offset file))
      ∙ ap (λ t. take (length t) (drop offset file)) (sym e),
  omega (arith, ap length e, length-slice file offset blen),
  λ _. e,
  λ z. sym e ∙ z,
)

-- An unbuffered answer, by what `hdfsPread` gave.
pub answer_lem :
    {W : Type 0} (file : Bytes) (b : ReadBuf) (size offset blen : ℕ) (r : Pread) (e : Env W)
    → size < blen
    → Answers file offset blen r e.errno
    → Correct file size offset blen (answer b (reply r e.errno) e).result
unfolding answer
answer_lem file b size offset blen failed e large a = elim (Bool-cases (eq_ℤ e.errno eintr)) [
  | inl t ↦ rw t (emsg_neg e.errno e)
  | inr t ↦ rw t (emsg_neg e.errno e)
]
answer_lem file b size offset blen (got []) e large a = elim (Bool-cases (is_set e.errno)) [
  | inl t ↦ rw t (emsg_neg e.errno e)
  | inr t ↦ rw t (full_Correct file size offset blen [] (sym (a t)))
]
answer_lem file b size offset blen (got (c ∷ s)) e large a =
    (sym a.1, a.0, λ h. absurd (omega arith), λ h. cc)

pub buf-answer : {W : Type 0} (b : ReadBuf) (r : Reply) (e : Env W) → (answer b r e).buf ≡ b
unfolding answer
buf-answer b interrupted e = refl
buf-answer b broken e = refl
buf-answer b at_end e = refl
buf-answer b (loaded bs) e = refl

pub inside_lem :
    (b : ReadBuf) (offset : ℕ)
    → inside b offset ≡ true
    → (b.offset ≤ offset) × (offset < b.offset + b.len)
inside_lem b offset h = ground arith

-- The bytes at the front of a request that come from the buffer are the file's.
pub front_lem :
    (file : Bytes) (b : ReadBuf) (offset : ℕ)
    → IsValid file b
    → front b offset ≡ slice file offset (length (front b offset))
front_lem file b offset v = elim (Bool-cases (inside b offset)) [
  | inr out ↦ rw out refl
  | inl in_buf ↦
      let (lo, hi) = inside_lem b offset in_buf in
      let i = offset - b.offset in
      let n = b.len - i in
      rw in_buf (
        slice_held file b offset n v lo (omega arith)
        ∙ ap (slice file offset) (omega (arith, length-slice (contents b.mem) i n)))
]

-- With the buffer filled as far as the file goes, the copy is the rest of the request.
pub copied_lem :
    (file : Bytes) (b : ReadBuf) (blen : ℕ)
    → IsValid file b
    → b.len ≡ min b.size (length file - b.offset)
    → blen ≤ b.size
    → slice (contents b.mem) 0 (if ltb b.len blen then b.len else blen) ≡ slice file b.offset blen
copied_lem file b blen v full small = elim (Bool-cases (ltb b.len blen)) [
  | inr enough ↦ rw enough (
      slice_common (contents b.mem) (drop b.offset file) b.len 0 blen v.held
        (omega (arith, ltb→le _ _ enough)))
  | inl short ↦
      let e : length (drop b.offset file) ≤ b.len =
        omega (arith, ltb→lt _ _ short, length-drop b.offset file) in
      rw short (
        v.held
        ∙ take_all b.len (drop b.offset file) e
        ∙ sym (take_all blen (drop b.offset file) (omega (arith, ltb→lt _ _ short))))
]

pub size-count_front : (b : ReadBuf) (offset : ℕ) → (count_front b offset).size ≡ b.size
size-count_front b offset = elim (Bool-cases (inside b offset)) [
  | inl t ↦ rw t refl
  | inr t ↦ rw t refl
]

-- What the buffer supplies of a request that it does not satisfy is shorter than the request.
pub length-front-le :
    (file : Bytes) (b : ReadBuf) (offset blen : ℕ)
    → IsValid file b
    → length file < 2 ^ 63
    → offset < 2 ^ 63
    → blen ≤ b.size
    → (leb b.offset offset && leb (add_size offset blen) (add_size b.offset b.len)) ≡ false
    → length (front b offset) ≤ blen
length-front-le file b offset blen v file_small lo small miss =
    elim (Bool-cases (inside b offset)) [
      | inr out ↦ rw out (omega arith)
      | inl in_buf ↦
          let (h1, h2) = inside_lem b offset in_buf in
          let far = beyond h1 h2 in
          rw in_buf (
            omega (
              arith,
              far,
              length-slice (contents b.mem) (offset - b.offset) (b.len - (offset - b.offset)),
            ))
    ]
  where
    beyond : b.offset ≤ offset → offset < b.offset + b.len → b.offset + b.len ≤ offset + blen
    beyond h1 h2 = ground (arith, v.in_file, v.small)

-- ===== src/Checksum/State/Chunks.antt =====
-- The CVMFS part of `Update`: the open chunk stays smaller than a chunk, the closed ones tile the file,
-- and the cut does not depend on how the file was handed over.
use xrootd_hdfs.Base.{
  ℕ, zero, suc, ◌+◌, ◌-◌, ◌≤◌, ◌<◌, [], ◌++◌, Bytes, Option, none, some, ◌≡◌, refl, sym, ap, ◌∙◌,
  inl, inr, take, drop, length, leb, arith, Bool-cases, leb→le, leb→lt, lt→leb, le→leb,
  length-append, length-drop, take-append, drop-append, take_past, drop_past,
}
use xrootd_hdfs.Checksum.State.{
  Digests, Chunking, updated, close_chunk, close_chunks, keep_rest, chunk_bytes,
}

-- What zlib and OpenSSL promise of data that is handed over in pieces.
pub record Streams {Ctx : Type 0} (d : Digests Ctx) : Type 0 where
  pub adler32 : (n : ℕ) (a b : Bytes) → d.adler32 (d.adler32 n a) b ≡ d.adler32 n (a ++ b)
  pub crc32 : (n : ℕ) (a b : Bytes) → d.crc32 (d.crc32 n a) b ≡ d.crc32 n (a ++ b)
  pub digest :
      (c : Ctx) (a b : Bytes) → d.digest_update (d.digest_update c a) b ≡ d.digest_update c (a ++ b)

module _ {Ctx : Type 0} where
  abbrev pub more_rest : Chunking Ctx → Bytes → Chunking Ctx
  more_rest s b = record s { rest = s.rest ++ b }

  abbrev pub with_rest : Chunking Ctx → Bytes → Chunking Ctx
  with_rest s b = record s { rest = b }

module _ {Ctx : Type 0} (d : Digests Ctx) (size : ℕ) (size_pos : 0 < size) where
  fuel_free :
      (f g total : ℕ) (s : Chunking Ctx)
      → total < f
      → total < g
      → close_chunks d size f total s ≡ close_chunks d size g total s
  unfolding close_chunks
  fuel_free zero g total s hf hg = absurd (omega arith)
  fuel_free (suc f) zero total s hf hg = absurd (omega arith)
  fuel_free (suc f) (suc g) total s hf hg = elim (Bool-cases (leb size total)) [
    | inl more ↦
        rw (more, close_chunks)
          (fuel_free f g (total - size) (close_chunk d size s) (omega (arith, leb→le _ _ more))
            (omega (arith, leb→le _ _ more)))
    | inr last ↦ rw (last, close_chunks) refl
  ]

  last_round : (f t : ℕ) (s : Chunking Ctx) → t < size → close_chunks d size (suc f) t s ≡ s
  unfolding close_chunks
  last_round f t s h = rw (lt→leb _ _ h, close_chunks) refl

  one_round :
      (f t : ℕ) (s : Chunking Ctx)
      → size ≤ t
      → close_chunks d size (suc f) t s ≡ close_chunks d size f (t - size) (close_chunk d size s)
  unfolding close_chunks
  one_round f t s h = rw (le→leb _ _ h, close_chunks) refl

  -- Bytes that do not complete the chunk stay open.
  pub chunk_small :
      (s : Chunking Ctx) → s.cur + length s.rest < size → chunk_bytes d size s ≡ keep_rest d s
  unfolding chunk_bytes
  chunk_small s h = ap (keep_rest d) (last_round (s.cur + length s.rest) _ s h)

  rest-close_chunk : (s : Chunking Ctx) → (close_chunk d size s).rest ≡ drop (size - s.cur) s.rest
  unfolding close_chunk
  rest-close_chunk s = refl

  cur-close_chunk : (s : Chunking Ctx) → (close_chunk d size s).cur ≡ 0
  unfolding close_chunk
  cur-close_chunk s = refl

  -- Bytes that complete it close it, and the others start anew.
  pub chunk_large :
      (s : Chunking Ctx)
      → s.cur < size
      → size ≤ s.cur + length s.rest
      → chunk_bytes d size s ≡ chunk_bytes d size (close_chunk d size s)
  unfolding chunk_bytes
  chunk_large s open_chunk h =
      let t = s.cur + length s.rest in
      let c = close_chunk d size s in
      let e : t - size ≡ c.cur + length c.rest =
        rw (rest-close_chunk, cur-close_chunk) (omega (arith, length-drop (size - s.cur) s.rest)) in
      ap (keep_rest d) (
        one_round t t s h
        ∙ ap (λ k. close_chunks d size t k c) e
        ∙ fuel_free t (suc (c.cur + length c.rest)) (c.cur + length c.rest) c (omega (arith, e))
            (omega arith))

  -- By induction on the bytes at hand: a small step keeps them open, a large one closes a chunk.
  pub chunk_bytes-lt :
      (n : ℕ) (s : Chunking Ctx)
      → length s.rest < n
      → s.cur < size
      → (chunk_bytes d size s).cur < size
  unfolding keep_rest
  chunk_bytes-lt zero s h open_chunk = absurd (omega arith)
  chunk_bytes-lt (suc n) s h open_chunk = elim (Bool-cases (leb size (s.cur + length s.rest))) [
    | inr small ↦ rw (chunk_small s (leb→lt _ _ small)) (leb→lt _ _ small)
    | inl large ↦ rw (chunk_large s open_chunk (leb→le _ _ large)) (
        chunk_bytes-lt n (close_chunk d size s)
          (rw rest-close_chunk (omega (arith, length-drop (size - s.cur) s.rest, leb→le _ _ large)))
          (rw cur-close_chunk size_pos))
  ]

  -- Closing a chunk does not look behind its end.
  close_chunk-more_rest :
      (s : Chunking Ctx) (b : Bytes)
      → size - s.cur ≤ length s.rest
      → close_chunk d size (more_rest s b) ≡ more_rest (close_chunk d size s) b
  unfolding close_chunk
  close_chunk-more_rest s b h =
      rw (take-append (size - s.cur) s.rest b h, drop-append (size - s.cur) s.rest b h) refl

module _ {Ctx : Type 0} (d : Digests Ctx) (streams : Streams d) where
  pub updated-append :
      (c : Option Ctx) (a b : Bytes) → updated d (updated d c a) b ≡ updated d c (a ++ b)
  updated-append none a b = refl
  updated-append (some c) a b = ap some (streams.digest c a b)

  -- Bytes that stay open may come in two pieces.
  keep_rest-append :
      (s : Chunking Ctx) (b : Bytes)
      → keep_rest d (with_rest (keep_rest d s) b) ≡ keep_rest d (more_rest s b)
  unfolding keep_rest
  keep_rest-append s b = λ i. record {
    cur = counted i;
    ctx = updated-append s.ctx s.rest b i;
    done = s.done;
    rest = [];
  }
    where
      counted : s.cur + length s.rest + length b ≡ s.cur + length (s.rest ++ b)
      counted = omega (arith, length-append s.rest b)

  -- So may the bytes that complete a chunk, with the piece that is left open first.
  close_chunk-keep_rest :
      (size : ℕ) (s : Chunking Ctx) (b : Bytes)
      → s.cur + length s.rest < size
      → close_chunk d size (with_rest (keep_rest d s) b) ≡ close_chunk d size (more_rest s b)
  unfolding close_chunk keep_rest
  close_chunk-keep_rest size s b h =
      let k = size - (s.cur + length s.rest) in
      let e : size - s.cur ≡ length s.rest + k = omega arith in
      rw (e, take_past k s.rest b, drop_past k s.rest b, updated-append s.ctx s.rest (take k b))
        refl

  module _ (size : ℕ) (size_pos : 0 < size) where
    abbrev pub Joins : Chunking Ctx → Bytes → Type 0
    Joins s b =
        chunk_bytes d size (with_rest (chunk_bytes d size s) b) ≡ chunk_bytes d size (more_rest s b)

    Joins-open : (s : Chunking Ctx) (b : Bytes) → s.cur + length s.rest < size → Joins s b
    unfolding keep_rest
    Joins-open s b h =
        ap (λ c. chunk_bytes d size (with_rest c b)) (chunk_small d size size_pos s h)
        ∙ elim (Bool-cases (leb size (s.cur + length s.rest + length b))) [
          | inr small ↦
              let t = leb→lt _ _ small in
              chunk_small d size size_pos (with_rest (keep_rest d s) b) t
              ∙ keep_rest-append s b
              ∙ sym (
                  chunk_small d size size_pos (more_rest s b)
                    (omega (arith, t, length-append s.rest b)))
          | inl large ↦
              let t = leb→le _ _ large in
              chunk_large d size size_pos (with_rest (keep_rest d s) b) h t
              ∙ ap (chunk_bytes d size) (close_chunk-keep_rest size s b h)
              ∙ sym (
                  chunk_large d size size_pos (more_rest s b) (omega arith)
                    (omega (arith, t, length-append s.rest b)))
        ]

    Joins-closed :
        (s : Chunking Ctx) (b : Bytes)
        → s.cur < size
        → size ≤ s.cur + length s.rest
        → Joins (close_chunk d size s) b
        → Joins s b
    Joins-closed s b open_chunk large ih =
        ap (λ c. chunk_bytes d size (with_rest c b))
          (chunk_large d size size_pos s open_chunk large)
        ∙ ih
        ∙ ap (chunk_bytes d size) (sym (close_chunk-more_rest d size size_pos s b (omega arith)))
        ∙ sym (
            chunk_large d size size_pos (more_rest s b) open_chunk
              (omega (arith, length-append s.rest b)))

    -- The chunks do not depend on how the bytes are cut into two calls.
    pub chunk_bytes-append :
        (n : ℕ) (s : Chunking Ctx) (b : Bytes) → length s.rest < n → s.cur < size → Joins s b
    chunk_bytes-append zero s b h open_chunk = absurd (omega arith)
    chunk_bytes-append (suc n) s b h open_chunk =
        elim (Bool-cases (leb size (s.cur + length s.rest))) [
          | inr small ↦ Joins-open s b (leb→lt _ _ small)
          | inl large ↦
              let t = leb→le _ _ large in
              Joins-closed s b open_chunk t (
                chunk_bytes-append n (close_chunk d size s) b
                  (rw (rest-close_chunk d size size_pos)
                    (omega (arith, t, length-drop (size - s.cur) s.rest)))
                  (rw (cur-close_chunk d size size_pos) size_pos))
        ]

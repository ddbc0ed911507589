-- ===== src/ReadAhead/Exact.antt =====
-- `Read` gives the bytes of the file, whatever the buffer holds.
use xrootd_hdfs.Base.{
  ℕ, ℤ, pos, true, Option, none, some, ◌++◌, ◌+◌, ◌≤◌, ◌<◌, ◌^◌, ◌&&◌, ◌≡◌, refl, sym, ap, ap₂, ◌∙◌,
  inl, inr, Bytes, length, slice, ltb, leb, if◌then◌else◌, arith, Bool-cases, ltb→lt, ltb→le,
  slice-add,
}
use xrootd_hdfs.Env.{Env, External}
use xrootd_hdfs.ReadAhead.{
  ReadBuf, contents, Done, inside, front, count_front, sub_size, add_size, finish, finish_filled,
  refill, read_around, hit, read,
}
use xrootd_hdfs.ReadAhead.Fill.{Serves, IsValid, Outcome, fill-Settles}
use xrootd_hdfs.ReadAhead.Pieces.{
  Correct, slice_held, full_Correct, answer_lem, buf-answer, front_lem, copied_lem,
  size-count_front, length-front-le,
}

pub record IsExact {W : Type 0} (file : Bytes) (b : ReadBuf) (offset blen : ℕ) (d : Done W)
    : Type 0 where
  pub valid : IsValid file d.buf
  pub size : d.buf.size ≡ b.size
  pub correct : Correct file b.size offset blen d.result

finish_lem :
    {W : Type 0} (file : Bytes) (b0 : ReadBuf) (status : Option ℤ) (head : Bytes) (offset blen : ℕ)
    (b : ReadBuf) (e : Env W)
    → IsValid file b
    → b.size ≡ b0.size
    → Outcome file b status
    → b.offset ≡ offset + length head
    → head ≡ slice file offset (length head)
    → length head ≤ blen
    → blen ≤ b0.size
    → blen < 2 ^ 64
    → IsExact file b0 offset blen (finish status head (sub_size blen (length head)) b e)
unfolding finish
finish_lem file b0 (some rc) head offset blen b e v size out o h1 h2 small range = record {
  valid = v;
  size = size;
  correct = out;
}
finish_lem file b0 none head offset blen b e v size out o h1 h2 small range = record {
  valid = record {
    allocated = v.allocated;
    small = v.small;
    fits = v.fits;
    held = v.held;
    in_file = v.in_file;
  };
  size = size;
  correct = full_Correct file b0.size offset blen _ whole;
}
  where
    rest : ℕ
    rest = sub_size blen (length head)

    whole :
        head ++ slice (contents b.mem) 0 (if ltb b.len rest then b.len else rest)
        ≡ slice file offset blen
    whole =
        ap₂ ◌++◌ h1 (copied_lem file b rest v out (omega arith) ∙ ap (λ k. slice file k rest) o)
        ∙ sym (slice-add file offset (length head) rest)
        ∙ ap (slice file offset) (omega arith)

-- The state in which the loop starts is valid.
start_IsValid :
    (file : Bytes) (b : ReadBuf) (offset next : ℕ)
    → IsValid file b
    → IsValid file (record (count_front b offset) { offset = next; len = 0 })
start_IsValid file b offset next v = elim (Bool-cases (inside b offset)) [
  | inl t ↦ rw t (record {
    allocated = v.allocated;
    small = v.small;
    fits = omega arith;
    held = refl;
    in_file = inl refl;
  })
  | inr t ↦ rw t (record {
    allocated = v.allocated;
    small = v.small;
    fits = omega arith;
    held = refl;
    in_file = inl refl;
  })
]

module _ {W : Type 0} (x : External W) (fs fh : Option ℕ) (file : Bytes) (budget : W → ℕ)
    (b : ReadBuf) (offset blen fuel : ℕ) (e : Env W) (sv : Serves x fs fh file budget)
    (v : IsValid file b) (file_small : length file < 2 ^ 63) (offset_small : offset < 2 ^ 63)
    (blen_small : blen < 2 ^ 64) (enough : b.size + budget e.world < fuel) where
  refill_lem :
      blen ≤ b.size
      → length (front b offset) ≤ blen
      → (d : Done W) × (refill x fs fh fuel b offset blen e ≡ some d) × IsExact file b offset blen d
  unfolding refill
  refill_lem small shorter =
      let head = front b offset in
      let next = offset + length head in
      let start = record (count_front b offset) { offset = next; len = 0 } in
      let size_kept = size-count_front b offset in
      let (f, p, st) =
        fill-Settles x fs fh file budget sv fuel next start e refl
          (start_IsValid file b offset next v) (omega (arith, size_kept)) in
      (
        finish f.status head (sub_size blen (length head)) f.buf f.env,
        ap (finish_filled head (sub_size blen (length head))) p,
        finish_lem file b f.status head offset blen f.buf f.env st.valid (st.size ∙ size_kept)
            st.outcome st.offset (front_lem file b offset v) shorter small blen_small,
      )

  -- `Read` ends, keeps the buffer valid, and answers with the bytes of the file: those at the offset,
  -- all that the file has of a request of at most the buffer's size, and none only at the end of the
  -- file; or with a negative code. It is so for every valid buffer, for a file shorter than 2^63 whose
  -- `hdfsPread` gives its bytes, with fuel for each byte of the buffer and each interruption.
  pub read-IsExact :
      (d : Done W) × (read x fs fh fuel b offset blen e ≡ some d) × IsExact file b offset blen d
  unfolding read read_around hit
  read-IsExact = elim (Bool-cases (ltb b.size blen)) [
    | inl large ↦ rw large (_, refl, around (ltb→lt _ _ large))
    | inr small ↦
        elim (Bool-cases
          (leb b.offset offset && leb (add_size offset blen) (add_size b.offset b.len))) [
            | inl held ↦ rw (small, held) (_, refl, on_hit (ltb→le _ _ small) held)
            | inr miss ↦
                rw (small, miss)
                  (refill_lem (ltb→le _ _ small) (
                    length-front-le file b offset blen v file_small offset_small (ltb→le _ _ small)
                      miss))
          ]
  ]
    where
      around : b.size < blen → IsExact file b offset blen (read_around x fs fh b offset blen e)
      around large = record {
        valid = rw buf-answer (record {
          allocated = v.allocated;
          small = v.small;
          fits = v.fits;
          held = v.held;
          in_file = v.in_file;
        });
        size = rw buf-answer refl;
        correct =
            answer_lem file _ b.size offset blen (x.pread fs fh offset blen e.world (pos 0)).0 _
              large (sv.answers e.world (pos 0) offset blen);
      }

      on_hit :
          blen ≤ b.size
          → (leb b.offset offset && leb (add_size offset blen) (add_size b.offset b.len)) ≡ true
          → IsExact file b offset blen (hit b offset blen e)
      on_hit small h = record {
        valid = record {
          allocated = v.allocated;
          small = v.small;
          fits = v.fits;
          held = v.held;
          in_file = v.in_file;
        };
        size = refl;
        correct =
            full_Correct file b.size offset blen _
              (slice_held file b offset blen v (ground arith) (ground (arith, v.small)));
      }

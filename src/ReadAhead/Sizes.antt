-- ===== src/ReadAhead/Sizes.antt =====
-- `Read` never writes outside the memory of its buffer, whatever the file.
use xrootd_hdfs.Base.{
  ℕ, zero, suc, ℤ, pos, ◌+◌, ◌-◌, ◌≤◌, ◌<◌, Option, none, some, [], ◌∷◌, ◌&&◌, Bytes, length,
  length-overwrite, OnSome, ltb, leb, is_set, eq_ℤ, ◌≡◌, ◌∙◌, inl, inr, arith, Bool-cases, ltb→lt,
}
use xrootd_hdfs.Env.{Env, External, Pread, got, failed, eintr}
use xrootd_hdfs.ReadAhead.{
  ReadBuf, contents, Reply, interrupted, broken, at_end, loaded, reply, store_mem, store, Filled,
  stop_with, resume, hit, finish, finish_filled, fill, inside, front, count_front, read_around,
  refill, read, sub_size, add_size, bump,
}
use xrootd_hdfs.ReadAhead.Pieces.{buf-answer}

-- `hdfsPread` gives no more bytes than it is asked for.
abbrev pub AtMost : ℕ → Pread → Type 0
AtMost len failed = Unit {0}
AtMost len (got s) = length s ≤ len

pub record Bounded {W : Type 0} (x : External W) : Type 0 where
  pub at_most :
      (fs fh : Option ℕ) (off len : ℕ) (w : W) (n : ℤ) → AtMost len (x.pread fs fh off len w n).0

-- A buffer of `size` bytes, as the object knows it and in memory.
pub record Keeps (size : ℕ) (b : ReadBuf) : Type 0 where
  pub known : b.size ≡ size
  pub allocated : length (contents b.mem) ≡ size

store-Keeps :
    (size : ℕ) (b : ReadBuf) (bs : Bytes)
    → Keeps size b
    → b.len + length bs ≤ size
    → Keeps size (store b bs)
store-Keeps size b bs k h = record { known = k.known; allocated = in_memory b.mem k.allocated }
  where
    in_memory :
        (m : Option Bytes)
        → length (contents m) ≡ size
        → length (contents (store_mem m b.len bs)) ≡ size
    in_memory none p = p
    in_memory (some m) p = length-overwrite m b.len bs (omega (arith, p)) ∙ p

-- A reply fits what is free of the buffer.
abbrev ReplyFits : ℕ → ReadBuf → Reply → Type 0
ReplyFits size b (loaded bs) = b.len + length bs ≤ size
ReplyFits size b _ = Unit {0}

reply-ReplyFits :
    (size : ℕ) (b : ReadBuf) (r : Pread) (n : ℤ)
    → b.len < size
    → AtMost (size - b.len) r
    → ReplyFits size b (reply r n)
reply-ReplyFits size b failed n free h = elim (Bool-cases (eq_ℤ n eintr)) [
  | inl t ↦ rw t tt
  | inr t ↦ rw t tt
]
reply-ReplyFits size b (got []) n free h = elim (Bool-cases (is_set n)) [
  | inl t ↦ rw t tt
  | inr t ↦ rw t tt
]
reply-ReplyFits size b (got (c ∷ s)) n free h = omega arith

module _ {W : Type 0} (size : ℕ) where
  resume-Keeps :
      (again : ReadBuf → Env W → Option (Filled W)) (b : ReadBuf) (r : Reply) (e : Env W)
      → ReplyFits size b r
      → Keeps size b
      → ((b' : ReadBuf) (e' : Env W) → Keeps size b' → OnSome (λ f. Keeps size f.buf) (again b' e'))
      → OnSome (λ f. Keeps size f.buf) (resume again b r e)
  unfolding resume stop_with
  resume-Keeps again b interrupted e h k next = next b e k
  resume-Keeps again b broken e h k next = k
  resume-Keeps again b at_end e h k next = k
  resume-Keeps again b (loaded bs) e h k next = next (store b bs) e (store-Keeps size b bs k h)

  finish-Keeps :
      (status : Option ℤ) (head : Bytes) (blen : ℕ) (b : ReadBuf) (e : Env W)
      → Keeps size b
      → Keeps size (finish status head blen b e).buf
  unfolding finish
  finish-Keeps none head blen b e k = record { known = k.known; allocated = k.allocated }
  finish-Keeps (some rc) head blen b e k = k

  finish_filled-Keeps :
      (head : Bytes) (blen : ℕ) (o : Option (Filled W))
      → OnSome (λ f. Keeps size f.buf) o
      → OnSome (λ d. Keeps size d.buf) (finish_filled head blen o)
  unfolding finish_filled
  finish_filled-Keeps head blen none h = tt
  finish_filled-Keeps head blen (some f) h = finish-Keeps f.status head blen f.buf f.env h

module _ {W : Type 0} (x : External W) (fs fh : Option ℕ) (size : ℕ) (bounded : Bounded x) where
  fill-Keeps :
      (fuel offset : ℕ) (b : ReadBuf) (e : Env W)
      → Keeps size b
      → OnSome (λ f. Keeps size f.buf) (fill x fs fh fuel offset b e)
  unfolding fill
  fill-Keeps zero offset b e k = tt
  fill-Keeps (suc fuel) offset b e k = elim (Bool-cases (ltb b.len b.size)) [
    | inr full ↦ rw (full, fill) k
    | inl free ↦
        let p = x.pread fs fh (offset + b.len) (b.size - b.len) e.world (pos 0) in
        let e' = record e { world = p.1; errno = p.2 } in
        rw (free, fill)
          (resume-Keeps size (fill x fs fh fuel offset) b (reply p.0 p.2) e'
            (reply-ReplyFits size b p.0 p.2 (omega (arith, k.known, ltb→lt b.len b.size free)) (
              same_request p.0 k.known
                (bounded.at_most fs fh (offset + b.len) (b.size - b.len) e.world (pos 0))))
            k (λ b' e2 k'. fill-Keeps fuel offset b' e2 k'))
  ]
    where
      same_request :
          (r : Pread) → b.size ≡ size → AtMost (b.size - b.len) r → AtMost (size - b.len) r
      same_request r p h = rw (← p) h

  -- `Read` keeps the memory of the buffer and its size.
  pub read-Keeps :
      (fuel : ℕ) (b : ReadBuf) (offset blen : ℕ) (e : Env W)
      → Keeps size b
      → OnSome (λ d. Keeps size d.buf) (read x fs fh fuel b offset blen e)
  unfolding read refill read_around hit
  read-Keeps fuel b offset blen e k = elim (Bool-cases (ltb b.size blen)) [
    | inl large ↦
        let p = x.pread fs fh offset blen e.world (pos 0) in
        let e' = record e { world = p.1; errno = p.2 } in
        let b' = record b { bypassed = bump b.bypassed } in
        rw (large, buf-answer b' (reply p.0 p.2) e')
          (record { known = k.known; allocated = k.allocated })
    | inr small ↦
        elim (Bool-cases
          (leb b.offset offset && leb (add_size offset blen) (add_size b.offset b.len))) [
            | inl held ↦ rw (small, held) (record { known = k.known; allocated = k.allocated })
            | inr miss ↦
                rw (small, miss)
                  (let head = front b offset in
                    let next = offset + length head in
                    finish_filled-Keeps size head (sub_size blen (length head))
                      (fill x fs fh fuel next
                        (record (count_front b offset) { offset = next; len = 0 }) e)
                      (fill-Keeps fuel next
                        (record (count_front b offset) { offset = next; len = 0 }) e
                        (counted next)))
          ]
  ]
    where
      counted : (next : ℕ) → Keeps size (record (count_front b offset) { offset = next; len = 0 })
      counted next = elim (Bool-cases (inside b offset)) [
        | inl t ↦ rw t (record { known = k.known; allocated = k.allocated })
        | inr t ↦ rw t (record { known = k.known; allocated = k.allocated })
      ]

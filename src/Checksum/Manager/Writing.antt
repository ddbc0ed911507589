-- ===== src/Checksum/Manager/Writing.antt =====
-- The loop of `SetMultiple` writes the whole text of the checksums.
use xrootd_hdfs.Base.{
  ℕ, zero, suc, ℤ, pos, negsuc, ◌+◌, ◌≤◌, ◌<◌, Option, some, [], ◌∷◌, ◌++◌, Bytes, true, false,
  length, take, drop, is_neg, ◌≡◌, ◌⊎◌, refl, sym, ap, ◌∙◌, inl, inr, arith, ltb, Bool-cases,
  append-nil, append_assoc, take-append-drop, length-drop, drop_all, ==_self,
}
use xrootd_hdfs.Env.{Env, External}
use xrootd_hdfs.Checksum.State.{Digests}
use xrootd_hdfs.File.{File, write, fed, advance}
use xrootd_hdfs.Checksum.Manager.{Loop, taken, write_rest, write_contents}

-- What a call of `hdfsWrite` does with a file: it takes a beginning of the buffer, at least a byte if
-- there is one, or it gives -1.
abbrev pub Took : Bytes → Bytes → Bytes → ℤ → Type 0
Took before after s (pos n) = (n ≤ length s) × (after ≡ before ++ take n s) × (n ≡ 0 → s ≡ [])
Took before after s (negsuc n) = n ≡ 0

-- `hdfsWrite` adds to the file that `file` shows of a world, and `hdfsCloseFile` leaves it.
pub record Writer {W : Type 0} (x : External W) (fs fh : Option ℕ) (file : W → Bytes) : Type 0 where
  pub takes :
      (w : W) (n : ℤ) (s : Bytes)
      → let (r, w', n') = x.write fs fh s w n in Took (file w) (file w') s r
  pub closes : (w : W) (n : ℤ) (h : ℕ) → file (x.close_file fs h w n).1 ≡ file w

module _ {W Ctx : Type 0} (file : W → Bytes) where
  -- How the loop ends: with an error, or with the whole text in the file.
  pub record Wrote (whole : Bytes) (l : Loop W Ctx) : Type 0 where
    pub outcome :
        (is_neg l.retval ≡ true) ⊎ ((is_neg l.retval ≡ false) × (file l.env.world ≡ whole))

  -- A write that takes a part, which is not all: the loop goes on behind it.
  write_rest-part :
      (again : ℕ → Bytes → Option (Loop W Ctx)) (stop : Bytes → Loop W Ctx) (offset n : ℕ)
      (rest : Bytes)
      → 0 < n
      → n < length rest
      → write_rest again stop offset rest (pos n) ≡ again (offset + n) (drop n rest)
  write_rest-part again stop offset zero rest h k = absurd (omega arith)
  write_rest-part again stop offset (suc n) rest h k =
      let more : ltb (suc n) (length rest) ≡ true = ground arith in rw (more, write_rest) refl

  -- A write that takes all ends the loop.
  pub write_rest-all :
      (again : ℕ → Bytes → Option (Loop W Ctx)) (stop : Bytes → Loop W Ctx) (offset n : ℕ)
      (rest : Bytes)
      → length rest ≤ n
      → write_rest again stop offset rest (pos n) ≡ some (stop (drop n rest))
  write_rest-all again stop offset zero rest h = refl
  write_rest-all again stop offset (suc n) rest h =
      let no_more : ltb (suc n) (length rest) ≡ false = ground arith in
      rw (no_more, write_rest) refl

  module _ (whole : Bytes) (f : File Ctx) (e : Env W) where
    abbrev Ended : Option (Loop W Ctx) → Type 0
    Ended result = (l : Loop W Ctx) × (result ≡ some l) × Wrote whole l

    -- What the rest of the loop does, from the offset that the file object has and with what is left.
    abbrev Goes : (again : ℕ → Bytes → Option (Loop W Ctx)) (offset rounds : ℕ) → Type 0
    Goes again offset rounds =
        (rest : Bytes)
        → file e.world ++ rest ≡ whole
        → length rest < rounds
        → Ended (again offset rest)

    write_rest_taken :
        (again : ℕ → Bytes → Option (Loop W Ctx)) (offset n rounds : ℕ) (rest before : Bytes)
        → Took before (file e.world) rest (pos (suc n))
        → before ++ rest ≡ whole
        → length rest < suc rounds
        → Goes again (offset + suc n) rounds
        → Ended (
            write_rest again
              (λ left. record { retval = pos (suc n); text = left; file = f; env = e })
              offset
              rest
              (pos (suc n)))
    write_rest_taken again offset n rounds rest before (fits, after, _) split enough next =
        let k = suc n in
        let stop : Bytes → Loop W Ctx =
          λ left. record { retval = pos k; text = left; file = f; env = e } in
        let joined : file e.world ++ drop k rest ≡ whole =
          ap (λ t. t ++ drop k rest) after
          ∙ append_assoc before (take k rest) (drop k rest)
          ∙ ap (λ t. before ++ t) (take-append-drop k rest)
          ∙ split in
        elim (Bool-cases (ltb k (length rest))) [
          | inl more ↦
              let (l, p, q) = next (drop k rest) joined (omega (arith, length-drop k rest)) in
              (l, write_rest-part again stop offset k rest (omega arith) (ground arith) ∙ p, q)
          | inr no_more ↦
              let at_end : length rest ≤ k = ground arith in
              (
                stop (drop k rest),
                write_rest-all again stop offset k rest at_end,
                record {
                  outcome = inr (
                    refl,
                    sym (append-nil (file e.world))
                        ∙ ap (λ t. file e.world ++ t) (sym (drop_all k rest at_end))
                        ∙ joined,
                  );
                },
              )
        ]

    write_rest_lem :
        (again : ℕ → Bytes → Option (Loop W Ctx)) (offset rounds : ℕ) (rest before : Bytes)
        (retval : ℤ)
        → Took before (file e.world) rest retval
        → before ++ rest ≡ whole
        → length rest < suc rounds
        → Goes again (offset + taken retval) rounds
        → Ended (
            write_rest again
              (λ left. record { retval = retval; text = left; file = f; env = e })
              offset
              rest
              retval)
    write_rest_lem again offset rounds rest before (negsuc zero) took split enough next =
        (_, refl, record { outcome = inl refl })
    write_rest_lem again offset rounds rest before (negsuc (suc n)) took split enough next =
        absurd (omega (arith, took))
    write_rest_lem again offset rounds [] before (pos zero) took split enough next =
        (_, refl, record { outcome = inr (refl, took.1 ∙ split) })
    write_rest_lem again offset rounds (c ∷ s) before (pos zero) took split enough next =
        absurd (omega (arith, ap length (took.2 refl)))
    write_rest_lem again offset rounds rest before (pos (suc n)) took split enough next =
        write_rest_taken again offset n rounds rest before took split enough next

advance-taken : (nextoff : ℕ) (retval : ℤ) → nextoff + taken retval ≡ advance nextoff retval
unfolding advance
advance-taken nextoff (pos n) = refl
advance-taken nextoff (negsuc n) = omega arith

module _ {W Ctx : Type 0} (x : External W) (d : Digests Ctx) (garbage fuel : ℕ) (file : W → Bytes)
    (whole : Bytes) where
  -- The loop of `SetMultiple` on an object whose next offset is the loop's: with a round for each byte
  -- it ends.
  pub write_contents_lem :
      (rounds : ℕ) (f : File Ctx) (rest : Bytes) (e : Env W)
      → Writer x f.fs f.fh file
      → file e.world ++ rest ≡ whole
      → length rest < rounds
      → (l : Loop W Ctx) × (write_contents x d garbage fuel rounds f f.nextoff rest e ≡ some l)
        × Wrote file whole l
  unfolding write_contents write
  write_contents_lem zero f rest e writer split enough = absurd (omega arith)
  write_contents_lem (suc rounds) f rest e writer split enough =
      let (retval, w, n) = x.write f.fs f.fh rest e.world e.errno in
      let f' = record f { nextoff = advance f.nextoff retval; state = fed d f.state rest } in
      let e' = record e { world = w; errno = n } in
      rw (==_self f.nextoff, write_contents, write)
        (write_rest_lem file whole f' e'
          (λ offset' rest'. write_contents x d garbage fuel rounds f' offset' rest' e') f.nextoff
          rounds rest (file e.world) retval (writer.takes e.world e.errno rest) split enough
          (rw (advance-taken f.nextoff retval)
            (λ rest' split' enough'. write_contents_lem rounds f' rest' e' writer split' enough')))

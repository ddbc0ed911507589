-- ===== src/Checksum/Manager/Objects.antt =====
-- What the loop of `SetMultiple` leaves of its file object and of the plugin's state.
use xrootd_hdfs.Base.{
  ℕ, zero, suc, ℤ, Option, Bytes, ◌≡◌, refl, ◌∙◌, inl, inr, neg, is_pos, ◌&&◌, ltb, ◌==◌, length,
  eq_ℤ, Bool-cases, OnSome, OnSome-weaken, drop, ◌+◌,
}
use xrootd_hdfs.Env.{Env, External, eintr}
use xrootd_hdfs.Checksum.State.{Digests, ChecksumState}
use xrootd_hdfs.File.{File, write, fed}
use xrootd_hdfs.Plugin.{emsg}
use xrootd_hdfs.Checksum.Manager.{Loop, taken, write_rest, write_contents}

-- The object keeps its handles and its name, and `IsKept` holds of its checksum state; the Name2Name
-- object stays.
pub record Keeps {W Ctx : Type 0} (IsKept : Option (ChecksumState Ctx) → Type 0) (f : File Ctx)
    (e : Env W) (f' : File Ctx) (e' : Env W) : Type 0 where
  pub state : IsKept f'.state
  pub fs : f'.fs ≡ f.fs
  pub fh : f'.fh ≡ f.fh
  pub fname : f'.fname ≡ f.fname
  pub n2n : e'.n2n ≡ e.n2n

module _ {W Ctx : Type 0} (x : External W) (d : Digests Ctx) (garbage fuel : ℕ)
    (IsKept : Option (ChecksumState Ctx) → Type 0)
    (fed-IsKept : (s : Option (ChecksumState Ctx)) (buff : Bytes)
      → IsKept s
      → IsKept (fed d s buff)) where
  write-Keeps :
      (f : File Ctx) (rest : Bytes) (offset : ℕ) (e : Env W)
      → IsKept f.state
      → let ((_, f'), e') = write x d f rest offset e in Keeps IsKept f e f' e'
  unfolding write emsg
  write-Keeps f rest offset e h = elim (Bool-cases (offset == f.nextoff)) [
    | inl in_order ↦ rw in_order (record {
      state = fed-IsKept f.state rest h;
      fs = refl;
      fh = refl;
      fname = refl;
      n2n = refl;
    })
    | inr out_of_order ↦
        rw out_of_order (record { state = h; fs = refl; fh = refl; fname = refl; n2n = refl })
  ]

  pub write_rest-OnSome :
      (P : Loop W Ctx → Type 0) (again : ℕ → Bytes → Option (Loop W Ctx))
      (stop : Bytes → Loop W Ctx) (offset : ℕ) (rest : Bytes) (retval : ℤ)
      → ((offset' : ℕ) (rest' : Bytes) → OnSome P (again offset' rest'))
      → ((left : Bytes) → P (stop left))
      → OnSome P (write_rest again stop offset rest retval)
  write_rest-OnSome P again stop offset rest retval next stopped =
      elim (Bool-cases (eq_ℤ retval (neg eintr))) [
        | inl retry ↦ rw (retry, write_rest) (next offset rest)
        | inr other ↦ elim (Bool-cases (is_pos retval && ltb (taken retval) (length rest))) [
          | inl more ↦
              rw (other, write_rest, more, write_rest)
                (next (offset + taken retval) (drop (taken retval) rest))
          | inr no_more ↦
              rw (other, write_rest, no_more, write_rest) (stopped (drop (taken retval) rest))
        ]
      ]

  pub write_contents-Keeps :
      (rounds : ℕ) (f : File Ctx) (offset : ℕ) (rest : Bytes) (e : Env W)
      → IsKept f.state
      → OnSome
          (λ l. Keeps IsKept f e l.file l.env)
          (write_contents x d garbage fuel rounds f offset rest e)
  unfolding write_contents
  write_contents-Keeps zero f offset rest e h = tt
  write_contents-Keeps (suc rounds) f offset rest e h =
      let ((retval, f'), e') = write x d f rest offset e in
      let k = write-Keeps f rest offset e h in
      write_rest-OnSome (λ l. Keeps IsKept f e l.file l.env)
        (λ offset' rest'. write_contents x d garbage fuel rounds f' offset' rest' e')
        (λ rest'. record { retval = retval; text = rest'; file = f'; env = e' }) offset rest retval
        (λ offset' rest'.
          OnSome-weaken (λ l. Keeps IsKept f' e' l.file l.env) (λ l. Keeps IsKept f e l.file l.env)
            (write_contents x d garbage fuel rounds f' offset' rest' e')
            (λ l m. record {
              state = m.state;
              fs = m.fs ∙ k.fs;
              fh = m.fh ∙ k.fh;
              fname = m.fname ∙ k.fname;
              n2n = m.n2n ∙ k.n2n;
            })
            (write_contents-Keeps rounds f' offset' rest' e' k.state))
        (λ left. k)

-- ===== src/File/Recording.antt =====
-- Which objects that `Open` opens for writing keep checksums.
use xrootd_hdfs.Base.{
  pos, ap, ℕ, ℤ, Option, none, some, Bytes, true, false, is_set, ◌≡◌, refl, inl, inr, Option-cases,
  Bool-cases,
}
use xrootd_hdfs.Env.{Env, External, Client, o_wronly}
use xrootd_hdfs.Plugin.{connect_client, get_real_path, emsg}
use xrootd_hdfs.Checksum.State.{finalize, Digests, ChecksumState}
use xrootd_hdfs.File.{
  File, new_file, no_buffer, allocate, open_connected, open_file, is_cksums, open_flag, close,
  close_handle,
}

module _ {W Ctx : Type 0} (x : External W) (d : Digests Ctx) where
  state-open_connected :
      (f : File Ctx) (fs garbage : ℕ) (e : Env W)
      → is_cksums f.fname ≡ true
      → (open_connected x d f o_wronly fs garbage e).0.1.state ≡ f.state
  unfolding open_connected
  state-open_connected f fs garbage e h =
      elim (Option-cases (x.open_file fs f.fname o_wronly e.world e.errno).0) [
        | inl null ↦ rw null refl
        | inr (h', opened) ↦ rw (opened, h) refl
      ]

  -- A new object whose translated name stands under /cksums has no checksums.
  pub state-open_writer :
      (name : Bytes) (client : Client) (garbage : ℕ) (e : Env W)
      → is_cksums (get_real_path x name e).0 ≡ true
      → (open_file x d new_file name o_wronly client garbage e).0.1.state ≡ none
  unfolding open_file open_flag
  state-open_writer name client garbage e h =
      let b = allocate x d no_buffer (get_real_path x name e).1 in
      elim (Option-cases (connect_client x (some client) b.1).0) [
        | inl null ↦ rw null refl
        | inr (fs, connected) ↦ rw connected (
            state-open_connected
              (record new_file { fs = some fs; fname = (get_real_path x name e).0; buf = b.0 }) fs
              garbage (connect_client x (some client) b.1).1 h)
      ]

  nextoff-open_connected :
      (f : File Ctx) (flag fs garbage : ℕ) (e : Env W)
      → (open_connected x d f flag fs garbage e).0.1.nextoff ≡ f.nextoff
  unfolding open_connected
  nextoff-open_connected f flag fs garbage e =
      elim (Option-cases (x.open_file fs f.fname flag e.world e.errno).0) [
        | inl null ↦ rw null refl
        | inr (h, opened) ↦ rw opened refl
      ]

  -- `Open` of a new object leaves the next offset at 0.
  pub nextoff-open_file :
      (name : Bytes) (mode : ℕ) (client : Client) (garbage : ℕ) (e : Env W)
      → (open_file x d new_file name mode client garbage e).0.1.nextoff ≡ 0
  unfolding open_file
  nextoff-open_file name mode client garbage e =
      let b = allocate x d no_buffer (get_real_path x name e).1 in
      elim (Option-cases (connect_client x (some client) b.1).0) [
        | inl null ↦ rw null refl
        | inr (fs, connected) ↦ rw connected (
            nextoff-open_connected
              (record new_file { fs = some fs; fname = (get_real_path x name e).0; buf = b.0 })
              (open_flag mode) fs garbage (connect_client x (some client) b.1).1)
      ]

  -- Closing the handle leaves what `shown` shows of a world, if `hdfsCloseFile` does.
  close_handle-kept {ℓ} :
      {A : Type ℓ} (shown : W → A) (f : File Ctx) (e : Env W)
      → ((w : W) (n : ℤ) (h : ℕ) → shown (x.close_file f.fs h w n).1 ≡ shown w)
      → shown (close_handle x d f e).1.world ≡ shown e.world
  unfolding close_handle emsg
  close_handle-kept shown f e keeps = elim (Option-cases f.fh) [
    | inl null ↦ rw null refl
    | inr (h, opened) ↦ elim (Bool-cases (is_set (x.close_file f.fs h e.world e.errno).0)) [
      | inl failed ↦ rw (opened, failed) (keeps e.world e.errno h)
      | inr fine ↦ rw (opened, fine) (keeps e.world e.errno h)
    ]
  ]

  -- `Close` of an object with no checksums, on which `hdfsCloseFile` keeps what `shown` shows.
  pub close_kept {ℓ} :
      {A : Type ℓ} (shown : W → A)
      (set : Option Bytes → ChecksumState Ctx → Env W → Option (ℤ × Env W)) (f : File Ctx)
      (e : Env W)
      → f.state ≡ none
      → ((w : W) (n : ℤ) (h : ℕ) → shown (x.close_file f.fs h w n).1 ≡ shown w)
      → (r : (ℤ × File Ctx) × Env W) × (close x d set f e ≡ some r)
        × (shown r.1.world ≡ shown e.world)
  unfolding close
  close_kept shown set f e h keeps = rw (h, close) (_, refl, close_handle-kept shown f e keeps)

  -- `Close` of an object with checksums, whose handle was closed with code 0, hands them to the checksum
  -- manager, and does not look at its code.
  pub close_records :
      (set : Option Bytes → ChecksumState Ctx → Env W → Option (ℤ × Env W)) (f : File Ctx)
      (s : ChecksumState Ctx) (e e1 e2 : Env W) (rc : ℤ)
      → f.state ≡ some s
      → close_handle x d f e ≡ (pos 0, e1)
      → set f.fname (finalize d s) e1 ≡ some (rc, e2)
      → (f' : File Ctx) × (close x d set f e ≡ some ((pos 0, f'), e2))
  unfolding close
  close_records set f s e e1 e2 rc kept closed recorded =
      let code = ap (λ (r : ℤ × Env W). r.0) closed in
      let left = ap (λ (r : ℤ × Env W). r.1) closed in
      let fine : is_set (close_handle x d f e).0 ≡ false = ap is_set code in
      rw (kept, close, fine, close, left, recorded, close) (with_code _ _ e2 code)
    where
      with_code :
          (ret : ℤ) (g : File Ctx) (e2 : Env W)
          → ret ≡ pos 0
          → (f' : File Ctx) × ◌≡◌ {A = Option ((ℤ × File Ctx) × Env W)}
              (some ((ret, g), e2))
              (some ((pos 0, f'), e2))
      with_code ret g e2 h =
          (g, ap {B = Option ((ℤ × File Ctx) × Env W)} (λ c. some ((c, g), e2)) h)

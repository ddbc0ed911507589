-- ===== src/File/Kept.antt =====
-- `Open` and `Close` leave the Name2Name object.
use xrootd_hdfs.Base.{
  ℕ, ℤ, pos, Option, none, some, Bytes, is_set, ◌≡◌, refl, ◌∙◌, inl, inr, Option-cases, Bool-cases,
}
use xrootd_hdfs.Env.{Env, External, Client, o_rdonly, codes}
use xrootd_hdfs.Plugin.{
  connect_client, connect_user, get_real_path, find_fs, extract_auth_name, emsg,
}
use xrootd_hdfs.Plugin.Paths.{same-get_real_path}
use xrootd_hdfs.ReadAhead.{ReadBuf}
use xrootd_hdfs.Checksum.State.{Digests, ChecksumState}
use xrootd_hdfs.File.{
  File, new_file, no_buffer, allocate, open_connected, open_file, open_flag, close, close_handle,
}

module _ {W : Type 0} (x : External W) where
  same-connect_client :
      (client : Client) (e : Env W) → (connect_client x (some client) e).1.n2n ≡ e.n2n
  unfolding connect_client connect_user
  same-connect_client client e =
      let user = extract_auth_name (some client) in
      elim (Option-cases (find_fs user e.fs_map)) [
        | inr (fs, old) ↦ rw old refl
        | inl new ↦ elim (Option-cases (x.connect_as (codes "default") 0 user e.world (pos 0)).0) [
          | inl refused ↦ rw (new, refused) refl
          | inr (fs, connected) ↦ rw (new, connected) refl
        ]
      ]

  module _ {Ctx : Type 0} (d : Digests Ctx) where
    same-allocate : (b : ReadBuf) (e : Env W) → (allocate x d b e).1.n2n ≡ e.n2n
    unfolding allocate
    same-allocate b e = elim (Option-cases b.mem) [
      | inl no_mem ↦ rw no_mem refl
      | inr (m, has_mem) ↦ rw has_mem refl
    ]

    same-open_connected :
        (f : File Ctx) (flag fs garbage : ℕ) (e : Env W)
        → (open_connected x d f flag fs garbage e).1.n2n ≡ e.n2n
    unfolding open_connected
    same-open_connected f flag fs garbage e =
        elim (Option-cases (x.open_file fs f.fname flag e.world e.errno).0) [
          | inl null ↦ rw null refl
          | inr (h, opened) ↦ rw opened refl
        ]

    pub same-open_file :
        (name : Bytes) (client : Client) (garbage : ℕ) (e : Env W)
        → (open_file x d new_file name o_rdonly client garbage e).1.n2n ≡ e.n2n
    unfolding open_file open_flag emsg
    same-open_file name client garbage e =
        let e1 = (get_real_path x name e).1 in
        let b = allocate x d no_buffer e1 in
        let e3 = (connect_client x (some client) b.1).1 in
        let before =
          same-connect_client client b.1
          ∙ same-allocate no_buffer e1
          ∙ same-get_real_path x name e in
        elim (Option-cases (connect_client x (some client) b.1).0) [
          | inl null ↦ rw null before
          | inr (fs, connected) ↦ rw connected (
              same-open_connected
                (record new_file { fs = some fs; fname = (get_real_path x name e).0; buf = b.0 })
                o_rdonly fs garbage e3
              ∙ before)
        ]

    same-close_handle : (f : File Ctx) (e : Env W) → (close_handle x d f e).1.n2n ≡ e.n2n
    unfolding close_handle emsg
    same-close_handle f e = elim (Option-cases f.fh) [
      | inl null ↦ rw null refl
      | inr (h, opened) ↦ elim (Bool-cases (is_set (x.close_file f.fs h e.world e.errno).0)) [
        | inl bad ↦ rw (opened, bad) refl
        | inr fine ↦ rw (opened, fine) refl
      ]
    ]

    -- `Close` of an object with no checksums.
    pub close_unrecorded :
        (set : Option Bytes → ChecksumState Ctx → Env W → Option (ℤ × Env W)) (f : File Ctx)
        (e : Env W)
        → f.state ≡ none
        → (r : (ℤ × File Ctx) × Env W) × (close x d set f e ≡ some r) × (r.1.n2n ≡ e.n2n)
    unfolding close
    close_unrecorded set f e h = rw (h, close) (_, refl, same-close_handle f e)

-- ===== src/File/Handles/Opened.antt =====
-- `Open`, and the file that it opens in HDFS.
use xrootd_hdfs.Base.{
  ℕ, ◌+◌, true, none, some, Bytes, is_set, ◌≡◌, refl, ap, ◌∙◌, inl, inr, arith, Option-cases,
}
use xrootd_hdfs.Env.{Env, External, Client}
use xrootd_hdfs.Plugin.{emsg, connect_client, get_real_path}
use xrootd_hdfs.Plugin.Handles.{held, Counts, Keeps, get_real_path-Keeps, connect_client-Keeps}
use xrootd_hdfs.ReadAhead.{ReadBuf}
use xrootd_hdfs.Checksum.State.{Digests}
use xrootd_hdfs.File.{
  File, new_file, no_buffer, allocate, readbuf_bytes, open_connected, open_file, open_flag,
}
use xrootd_hdfs.File.Handles.{Holds}

module _ {W Ctx : Type 0} (x : External W) (d : Digests Ctx) (count : W → ℕ)
    (counts : Counts x count) where
  allocate-Keeps : (b : ReadBuf) → Keeps count (allocate x d b)
  unfolding allocate
  allocate-Keeps b e = elim (Option-cases b.mem) [
    | inl no_mem ↦ rw no_mem (counts.alloc readbuf_bytes e.world e.errno)
    | inr (m, has_mem) ↦ rw has_mem refl
  ]

  open_connected-Holds :
      (f : File Ctx) (flag fs garbage others : ℕ) (e : Env W)
      → f.fs ≡ some fs
      → f.fh ≡ none
      → count e.world ≡ others
      → let ((_, f'), e') = open_connected x d f flag fs garbage e in Holds count others f' e'
  unfolding open_connected
  open_connected-Holds f flag fs garbage others e connected unopened h =
      let (handle, w, n) = x.open_file fs f.fname flag e.world e.errno in
      let opened = counts.opens fs f.fname flag e.world e.errno in
      elim (Option-cases handle) [
        | inr (g, has_handle) ↦
            let more : count w ≡ count e.world + 1 =
              opened ∙ ap (λ o. count e.world + held o) has_handle in
            rw (has_handle, connected)
              (record { counted = omega (arith, more, h); linked = omega arith })
        | inl null ↦
            let same : count w ≡ count e.world + 0 =
              opened ∙ ap (λ o. count e.world + held o) null in
            let kept = counts.path_info (some fs) f.fname w n in
            rw (null, unopened)
              (record { counted = omega (arith, same, kept, h); linked = omega arith })
      ]

  pub open_file-Holds :
      (f : File Ctx) (path : Bytes) (mode : ℕ) (client : Client) (garbage others : ℕ) (e : Env W)
      → Holds count others f e
      → let ((_, f'), e') = open_file x d f path mode client garbage e in Holds count others f' e'
  unfolding open_file emsg
  open_file-Holds f path mode client garbage others e s = elim (Option-cases f.fh) [
    | inr (h, in_use) ↦ rw in_use (record {
      counted = omega (arith, s.counted, ap held in_use);
      linked = omega (arith, s.linked, ap held in_use);
    })
    | inl closed ↦
        let (p, e1) = get_real_path x path e in
        let (b, e2) = allocate x d f.buf e1 in
        let (fs, e3) = connect_client x (some client) e2 in
        let start : count e.world ≡ others = omega (arith, s.counted, ap held closed) in
        let kept : count e3.world ≡ others =
          connect_client-Keeps x count counts (some client) e2
          ∙ allocate-Keeps f.buf e1
          ∙ get_real_path-Keeps x count counts path e
          ∙ start in
        elim (Option-cases fs) [
          | inl null ↦
              rw (closed, null) (record { counted = omega (arith, kept); linked = omega arith })
          | inr (g, connected) ↦
              rw (closed, connected)
                (open_connected-Holds (record f { fs = some g; fh = none; fname = p; buf = b })
                  (open_flag mode) g garbage others e3 refl refl kept)
        ]
  ]

  -- A failed `Open` of a new object leaves it without a handle.
  open_connected-unopened :
      (f : File Ctx) (flag fs garbage : ℕ) (e : Env W)
      → f.fh ≡ none
      → let ((rc, f'), _) = open_connected x d f flag fs garbage e in
        is_set rc ≡ true → f'.fh ≡ none
  unfolding open_connected
  open_connected-unopened f flag fs garbage e unopened =
      elim (Option-cases (x.open_file fs f.fname flag e.world e.errno).0) [
        | inl null ↦ rw null (λ bad. unopened)
        | inr (h, opened) ↦ rw opened (λ bad. absurd (ground (arith, bad)))
      ]

  pub open_file-unopened :
      (path : Bytes) (mode : ℕ) (client : Client) (garbage : ℕ) (e : Env W)
      → let ((rc, f'), _) = open_file x d new_file path mode client garbage e in
        is_set rc ≡ true → f'.fh ≡ none
  unfolding open_file
  open_file-unopened path mode client garbage e =
      let (p, e1) = get_real_path x path e in
      let (b, e2) = allocate x d no_buffer e1 in
      let (fs, e3) = connect_client x (some client) e2 in
      elim (Option-cases fs) [
        | inl null ↦ rw null (λ bad. refl)
        | inr (g, connected) ↦ rw connected (
            open_connected-unopened (record new_file { fs = some g; fname = p; buf = b })
              (open_flag mode) g garbage e3 refl)
      ]

  -- A new object that was opened holds what `Open` left, and nothing if that failed.
  pub new_file-Holds :
      (path : Bytes) (mode : ℕ) (client : Client) (garbage : ℕ) (e : Env W)
      → let ((rc, f'), e') = open_file x d new_file path mode client garbage e in
        Holds count (count e.world) f' e' × (is_set rc ≡ true → count e'.world ≡ count e.world)
  new_file-Holds path mode client garbage e =
      let s =
        open_file-Holds new_file path mode client garbage (count e.world) e
          (record { counted = omega arith; linked = omega arith }) in
      (
        s,
        λ bad.
            omega (arith, s.counted, ap held (open_file-unopened path mode client garbage e bad)),
      )

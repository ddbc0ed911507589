-- ===== src/File/Mapped.antt =====
-- `Open` of a new object for writing, with a Name2Name object, where no call fails.
use xrootd_hdfs.Base.{
  ℕ, ℤ, pos, Option, none, some, Bytes, true, false, ◌+◌, is_set, ◌≡◌, refl, sym, ap, ◌∙◌, inl, inr,
  Option-cases, Bool-cases, length, if◌then◌else◌,
}
use xrootd_hdfs.Env.{Env, External, Client, N2n, o_wronly, codes}
use xrootd_hdfs.Plugin.{
  connect_client, connect_user, get_real_path, max_path_len, find_fs, extract_auth_name,
}
use xrootd_hdfs.Plugin.Paths.{get_real_path-mapped, n2n-get_real_path}
use xrootd_hdfs.ReadAhead.{ReadBuf}
use xrootd_hdfs.Checksum.State.{Digests, ChecksumState, create, all_bits, finalize}
use xrootd_hdfs.File.{
  File, new_file, no_buffer, allocate, open_connected, open_file, is_cksums, open_flag, close,
  close_handle,
}

-- No call of outside code fails.
pub record Succeeds {W : Type 0} (x : External W) : Type 0 where
  pub allocates : (n : ℕ) (w : W) (e : ℤ) → (x.alloc n w e).0 ≡ true
  pub connects :
      (inst : Bytes) (port : ℕ) (user : Bytes) (w : W) (e : ℤ)
      → (fs : ℕ) × ((x.connect_as inst port user w e).0 ≡ some fs)
  pub opens :
      (fs : ℕ) (path : Option Bytes) (flag : ℕ) (w : W) (e : ℤ)
      → (h : ℕ) × ((x.open_file fs path flag w e).0 ≡ some h)
  pub writes :
      (fs fh : Option ℕ) (s : Bytes) (w : W) (e : ℤ) → (x.write fs fh s w e).0 ≡ pos (length s)
  pub closes : (fs : Option ℕ) (h : ℕ) (w : W) (e : ℤ) → (x.close_file fs h w e).0 ≡ pos 0

module _ {W : Type 0} (x : External W) (works : Succeeds x) where
  connect_client-connected :
      (client : Client) (e : Env W)
      → (fs : ℕ) × ((connect_client x (some client) e).0 ≡ some fs)
        × ((connect_client x (some client) e).1.n2n ≡ e.n2n)
  unfolding connect_client connect_user
  connect_client-connected client e =
      elim (Option-cases (find_fs (extract_auth_name (some client)) e.fs_map)) [
        | inr (fs, old) ↦ rw old (fs, refl, refl)
        | inl new ↦
            let (fs, connected) =
              works.connects (codes "default") 0 (extract_auth_name (some client)) e.world
                (pos 0) in
            rw (new, connected) (fs, refl, refl)
      ]

  module _ {Ctx : Type 0} (d : Digests Ctx) where
    n2n-allocate : (b : ReadBuf) (e : Env W) → (allocate x d b e).1.n2n ≡ e.n2n
    unfolding allocate
    n2n-allocate b e = elim (Option-cases b.mem) [
      | inl no_mem ↦ rw no_mem refl
      | inr (m, has_mem) ↦ rw has_mem refl
    ]

    -- The checksum state of an object that was opened for writing under the name `fname`.
    abbrev pub new_state : Bytes → ℕ → Option (ChecksumState Ctx)
    new_state fname garbage =
        if is_cksums (some fname) then none else some (create d all_bits garbage)

    pub new_state-inside :
        (fname : Bytes) (garbage : ℕ)
        → is_cksums (some fname) ≡ true
        → new_state fname garbage ≡ none
    new_state-inside fname garbage inside = rw inside refl

    pub new_state-outside :
        (fname : Bytes) (garbage : ℕ)
        → is_cksums (some fname) ≡ false
        → new_state fname garbage ≡ some (create d all_bits garbage)
    new_state-outside fname garbage outside = rw outside refl

    -- What is left by an `Open` for writing.
    pub record Opens (the_n2n : N2n) (fname : Bytes) (garbage : ℕ) (r : (ℤ × File Ctx) × Env W)
        : Type 0 where
      pub code : r.0.0 ≡ pos 0
      pub named : r.0.1.fname ≡ some fname
      pub state : r.0.1.state ≡ new_state fname garbage
      pub n2n : r.1.n2n ≡ some the_n2n

    open_connected-Opens :
        (the_n2n : N2n) (f : File Ctx) (fname : Bytes) (fs garbage : ℕ) (e : Env W)
        → f.fname ≡ some fname
        → f.state ≡ none
        → e.n2n ≡ some the_n2n
        → Opens the_n2n fname garbage (open_connected x d f o_wronly fs garbage e)
    unfolding open_connected
    open_connected-Opens the_n2n f fname fs garbage e named fresh n =
        let (h, opened) = works.opens fs f.fname o_wronly e.world e.errno in
        elim (Bool-cases (is_cksums (some fname))) [
          | inl inside ↦
              let named_inside = ap is_cksums named ∙ inside in
              rw (opened, named_inside)
                (record {
                  code = refl;
                  named = named;
                  state = fresh ∙ sym (new_state-inside fname garbage inside);
                  n2n = n;
                })
          | inr outside ↦
              let named_outside = ap is_cksums named ∙ outside in
              rw (opened, named_outside)
                (record {
                  code = refl;
                  named = named;
                  state = sym (new_state-outside fname garbage outside);
                  n2n = n;
                })
        ]

    pub open_file-Opens :
        (the_n2n : N2n) (name : Bytes) (client : Client) (garbage : ℕ) (e : Env W)
        → e.n2n ≡ some the_n2n
        → let (rc, actual) = the_n2n name (max_path_len + 1) in
          is_set rc ≡ false
          → Opens the_n2n actual garbage (open_file x d new_file name o_wronly client garbage e)
    unfolding open_file open_flag
    open_file-Opens the_n2n name client garbage e n mapped =
        let (path, e1) = get_real_path x name e in
        let actual = (the_n2n name (max_path_len + 1)).1 in
        let named : path ≡ some actual =
          get_real_path-mapped x the_n2n name e n mapped (λ k. works.allocates k e.world e.errno) in
        let (b, e2) = allocate x d no_buffer e1 in
        let (fs, connected, kept) = connect_client-connected client e2 in
        rw connected (
          open_connected-Opens the_n2n (record new_file { fs = some fs; fname = path; buf = b })
            actual fs garbage (connect_client x (some client) e2).1 named refl
            (kept ∙ n2n-allocate no_buffer e1 ∙ n2n-get_real_path x the_n2n name e n))

    -- Closing a handle gives code 0 and leaves the Name2Name object.
    close_handle-closed :
        (f : File Ctx) (e : Env W)
        → ((close_handle x d f e).0 ≡ pos 0) × ((close_handle x d f e).1.n2n ≡ e.n2n)
    unfolding close_handle
    close_handle-closed f e = elim (Option-cases f.fh) [
      | inl null ↦ rw null (refl, refl)
      | inr (h, opened) ↦ rw (opened, works.closes f.fs h e.world e.errno) (refl, refl)
    ]

    -- `Close` of an object with checksums hands them on, and comes to no end if that comes to none.
    pub close_hands_on :
        (the_n2n : N2n) (set : Option Bytes → ChecksumState Ctx → Env W → Option (ℤ × Env W))
        (f : File Ctx) (s : ChecksumState Ctx) (e : Env W)
        → f.state ≡ some s
        → e.n2n ≡ some the_n2n
        → ((t : ChecksumState Ctx) (e' : Env W) → e'.n2n ≡ some the_n2n → set f.fname t e' ≡ none)
        → close x d set f e ≡ none
    unfolding close
    close_hands_on the_n2n set f s e kept n stuck =
        let (fine, same) = close_handle-closed f e in
        let ret_zero : is_set (close_handle x d f e).0 ≡ false = ap is_set fine in
        rw
          (
            kept,
            close,
            ret_zero,
            close,
            stuck (finalize d s) (close_handle x d f e).1 (same ∙ n),
            close,
          )
          refl

    -- `Close` of an object with checksums ends where the call that it hands them to ends, and without
    -- checksums it ends.
    pub close_ends :
        (the_n2n : N2n) (set : Option Bytes → ChecksumState Ctx → Env W → Option (ℤ × Env W))
        (f : File Ctx) (e : Env W)
        → e.n2n ≡ some the_n2n
        → ((t : ChecksumState Ctx) (e' : Env W)
            → (s : ChecksumState Ctx) × (f.state ≡ some s)
            → e'.n2n ≡ some the_n2n
            → (e2 : Env W) × (set f.fname t e' ≡ some (pos 0, e2)))
        → (closed : (ℤ × File Ctx) × Env W) × (close x d set f e ≡ some closed)
    unfolding close
    close_ends the_n2n set f e n next = elim (Option-cases f.state) [
      | inl no_state ↦ rw no_state (_, refl)
      | inr (s, kept) ↦
          let (fine, same) = close_handle-closed f e in
          let ret_zero : is_set (close_handle x d f e).0 ≡ false = ap is_set fine in
          let (e2, p) = next (finalize d s) (close_handle x d f e).1 (s, kept) (same ∙ n) in
          rw (kept, close, ret_zero, close, p, close) (_, refl)
    ]

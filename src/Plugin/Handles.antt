-- ===== src/Plugin/Handles.antt =====
-- The number of files that are open in HDFS, and the operations that leave it as it was.
use xrootd_hdfs.Base.{
  ℕ, ℤ, pos, ◌+◌, ◌<◌, Option, none, some, Bytes, length, is_set, ◌≡◌, refl, ap, ◌∙◌, inl, inr,
  Bool-cases, Option-cases, OnSome, OnSome-weaken,
}
use xrootd_hdfs.Env.{Env, M, External, Client, call, codes}
use xrootd_hdfs.Plugin.{
  emsg, connect_user, connect_client, get_real_path, strdup, with_connection, extract_auth_name,
  find_fs, max_path_len, remember,
}

-- A pointer that is not NULL counts as one.
abbrev pub held : Option ℕ → ℕ
held none = 0
held (some h) = 1

-- `count` is the number of files that are open in HDFS. `hdfsOpenFile` adds the handle that it gives, and
-- `hdfsCloseFile` takes one away, also when it fails.
pub record Counts {W : Type 0} (x : External W) (count : W → ℕ) : Type 0 where
  pub alloc : (n : ℕ) (w : W) (e : ℤ) → count (x.alloc n w e).1 ≡ count w
  pub connect_as :
      (inst : Bytes) (port : ℕ) (user : Bytes) (w : W) (e : ℤ)
      → count (x.connect_as inst port user w e).1 ≡ count w
  pub pread :
      (fs fh : Option ℕ) (off len : ℕ) (w : W) (e : ℤ)
      → count (x.pread fs fh off len w e).1 ≡ count w
  pub write :
      (fs fh : Option ℕ) (s : Bytes) (w : W) (e : ℤ) → count (x.write fs fh s w e).1 ≡ count w
  pub path_info :
      (fs : Option ℕ) (path : Option Bytes) (w : W) (e : ℤ)
      → count (x.path_info fs path w e).1 ≡ count w
  pub delete : (fs : ℕ) (path : Bytes) (w : W) (e : ℤ) → count (x.delete fs path w e).1 ≡ count w
  pub exists : (fs : ℕ) (path : Bytes) (w : W) (e : ℤ) → count (x.exists fs path w e).1 ≡ count w
  pub chmod :
      (fs : ℕ) (path : Bytes) (mode : ℕ) (w : W) (e : ℤ)
      → count (x.chmod fs path mode w e).1 ≡ count w
  pub opens :
      (fs : ℕ) (path : Option Bytes) (flag : ℕ) (w : W) (e : ℤ)
      → let (h, w', _) = x.open_file fs path flag w e in count w' ≡ count w + held h
  pub closes :
      (fs : Option ℕ) (h : ℕ) (w : W) (e : ℤ)
      → 0 < count w
      → count (x.close_file fs h w e).1 + 1 ≡ count w

module _ {W : Type 0} (count : W → ℕ) where
  -- The operation leaves the number of open files.
  abbrev pub Keeps : {A : Type 0} → M W A → Type 0
  Keeps m = (e : Env W) → count (m e).1.world ≡ count e.world

  -- The operation leaves the number of open files, if it ends.
  abbrev pub Balances : {A : Type 0} → Env W → Option (A × Env W) → Type 0
  Balances e o = OnSome (λ r. count r.1.world ≡ count e.world) o

  pub Balances-trans :
      {A : Type 0} (e e' : Env W) (o : Option (A × Env W))
      → count e'.world ≡ count e.world
      → Balances e' o
      → Balances e o
  Balances-trans e e' o kept h =
      OnSome-weaken (λ r. count r.1.world ≡ count e'.world) (λ r. count r.1.world ≡ count e.world) o
        (λ r same. same ∙ kept) h

module _ {W : Type 0} (x : External W) (count : W → ℕ) (counts : Counts x count) where
  strdup-Keeps : (path : Bytes) → Keeps count (strdup x path)
  unfolding strdup
  strdup-Keeps path e = counts.alloc (length path + 1) e.world e.errno

  pub get_real_path-Keeps : (name : Bytes) → Keeps count (get_real_path x name)
  unfolding get_real_path
  get_real_path-Keeps name e = elim (Option-cases e.n2n) [
    | inl direct ↦ rw (direct, get_real_path) (strdup-Keeps name e)
    | inr (the_n2n, mapping) ↦ elim (Bool-cases (is_set (the_n2n name (max_path_len + 1)).0)) [
      | inl refused ↦ rw (mapping, get_real_path, refused, get_real_path) (strdup-Keeps name e)
      | inr mapped ↦
          rw (mapping, get_real_path, mapped, get_real_path)
            (strdup-Keeps (the_n2n name (max_path_len + 1)).1 e)
    ]
  ]

  world-remember : (user : Bytes) (r : Option ℕ × Env W) → (remember user r).1.world ≡ r.1.world
  world-remember user (none, e) = refl
  world-remember user (some fs, e) = refl

  pub connect_user-Keeps :
      (inst : Bytes) (port : ℕ) (user : Bytes) → Keeps count (connect_user x inst port user)
  unfolding connect_user
  connect_user-Keeps inst port user e = elim (Option-cases (find_fs user e.fs_map)) [
    | inr (fs, old) ↦ rw (old, connect_user) refl
    | inl new ↦
        rw (new, connect_user)
          (ap count (world-remember user (call (x.connect_as inst port user) e))
            ∙ counts.connect_as inst port user e.world e.errno)
  ]

  pub connect_client-Keeps : (client : Option Client) → Keeps count (connect_client x client)
  unfolding connect_client
  connect_client-Keeps client e =
      connect_user-Keeps (codes "default") 0 (extract_auth_name client) (record e { errno = pos 0 })

  -- An operation on a name leaves the number of open files, if what it does once it is connected does.
  pub with_connection-Keeps :
      (name : Bytes) (client : Option Client) (body : ℕ → Bytes → M W ℤ)
      → ((fs : ℕ) (path : Bytes) → Keeps count (body fs path))
      → Keeps count (with_connection x name client body)
  unfolding with_connection emsg
  with_connection-Keeps name client body h e =
      let (path, e1) = get_real_path x name e in
      let (fs, e2) = connect_client x client e1 in
      let named = get_real_path-Keeps name e in
      let connected = connect_client-Keeps client e1 ∙ named in
      elim (Option-cases path) [
        | inl null ↦ rw null named
        | inr (p, has_path) ↦ elim (Option-cases fs) [
          | inl no_fs ↦ rw (has_path, no_fs) connected
          | inr (f, has_fs) ↦ rw (has_path, has_fs) (h f p e2 ∙ connected)
        ]
      ]

-- ===== src/Plugin.antt =====
-- src/XrdHdfs.cc: what its operations share. Error reports (`Emsg`), the cache of connections,
-- and the translation of paths. REUSE_CONNECTION is defined.
pub mod Errors
pub mod Connections
pub mod Paths
pub mod Handles
mod Tests
use xrootd_hdfs.Base.{
  ℕ, ℤ, pos, negsuc, neg, is_neg, is_pos, is_set, Bool, true, false, Option, none, some, List, [],
  ◌∷◌, ◌&&◌, Bytes, length, ltb, leb, ◌==◌, ◌+◌, if◌then◌else◌,
}
use xrootd_hdfs.Env.{
  Env, M, External, Client, Sec, N2n, pure, ◌>>=◌, ◌>>◌, call, set_errno, unless_null, codes,
  enomem, eio, enametoolong,
}

-- Equality of byte strings: the order of `std::string` keys, and `strcmp`.
abbrev pub eq_bytes : Bytes → Bytes → Bool
eq_bytes [] [] = true
eq_bytes [] (_ ∷ _) = false
eq_bytes (_ ∷ _) [] = false
eq_bytes (a ∷ s) (b ∷ t) = (a == b) && eq_bytes s t

abbrev pub max_path_len : ℕ
max_path_len = 1024

abbrev pub nobody : Bytes
nobody = codes "nobody"

-- The name of a security entity: its attribute `request.name` if that is long enough.
secured_name : Sec → Bytes
secured_name sec = elim sec.request_name [
  | some username ↦ if ltb 1 (length username) then username else entity_name
  | none ↦ entity_name
]
  where
    entity_name : Bytes
    entity_name = elim sec.name [ some name ↦ name | none ↦ nobody ]

unfoldable pub extract_auth_name : Option Client → Bytes
unfolding secured_name
extract_auth_name none = nobody
extract_auth_name (some client) = elim client.sec [ some sec ↦ secured_name sec | none ↦ nobody ]

-- `g_fs_map.find(username)`.
abbrev pub find_fs : Bytes → List (Bytes × ℕ) → Option ℕ
find_fs user [] = none
find_fs user ((name, fs) ∷ rest) = if eq_bytes name user then some fs else find_fs user rest

-- The value that `Emsg` returns: it is made of `errno`, not of the code that it is given.
abbrev pub emsg_code : ℤ → ℤ
emsg_code errno = if is_set errno then (if is_pos errno then neg errno else errno) else negsuc 0

module _ {W : Type 0} where
  unfoldable pub emsg : ℤ → M W ℤ
  emsg ecode e = (emsg_code e.errno, record e { einfo = if is_neg ecode then neg ecode else ecode })

  -- `errno ? errno : fallback`.
  abbrev pub errno_or : ℤ → M W ℤ
  errno_or fallback e = (if is_set e.errno then e.errno else fallback, e)

-- A new connection is kept, a failed one is not.
abbrev pub remember : {W : Type 0} → Bytes → Option ℕ × Env W → Option ℕ × Env W
remember username (some fs, e) = (some fs, record e { fs_map = (username, fs) ∷ e.fs_map })
remember username (none, e) = (none, e)

module _ {W : Type 0} (x : External W) where
  -- `hadoop_connect(instance, port, username)`.
  unfoldable pub connect_user : Bytes → ℕ → Bytes → M W (Option ℕ)
  connect_user instance_name port username e = elim (find_fs username e.fs_map) [
    | some fs ↦ (some fs, e)
    | none ↦ remember username (call (x.connect_as instance_name port username) e)
  ]

  -- `hadoop_connect(client)`.
  unfoldable pub connect_client : Option Client → M W (Option ℕ)
  unfolding connect_user
  connect_client client = do
    set_errno (pos 0)
    connect_user (codes "default") 0 (extract_auth_name client)

  -- `hadoop_disconnect`, with REUSE_CONNECTION.
  unfoldable pub disconnect : Option ℕ → M W (Unit {0})
  disconnect fs = pure tt

  strdup : Bytes → M W (Option Bytes)
  strdup path = do ok ← call (x.alloc (length path + 1)); pure (if ok then some path else none)

  unfoldable pub get_real_path : Bytes → M W (Option Bytes)
  unfolding strdup
  get_real_path path e = elim e.n2n [
    | some the_n2n ↦
        let (rc, actual_path) = the_n2n path (max_path_len + 1) in
        if is_set rc then strdup path e else strdup actual_path e
    | none ↦ strdup path e
  ]

  -- The opening of `Chmod`, `Mkdir`, `Remdir`, `Truncate`, `Unlink` and `Create`: the path, then
  -- the connection, each with its error.
  unfoldable pub with_connection : Bytes → Option Client → (ℕ → Bytes → M W ℤ) → M W ℤ
  unfolding emsg
  with_connection req_path envp body = do
    path ← get_real_path req_path
    unless_null path (emsg enomem)
        λ p. do fs ← connect_client envp; unless_null fs (emsg eio) λ f. body f p

-- `Lfn2Pfn(oldp, newp, blen)`: the code, and what `newp` holds if it was written.
unfoldable pub lfn2pfn : Option N2n → Bytes → ℕ → ℤ × Option Bytes
lfn2pfn (some the_n2n) oldp blen = let (rc, newp) = the_n2n oldp blen in (neg rc, some newp)
lfn2pfn none oldp blen =
    if leb blen (length oldp) then (neg enametoolong, none) else (pos 0, some oldp)

-- `Lfn2Pfn(oldp, newp, blen, rc)`: the returned text, `none` for NULL, and `rc`.
unfoldable pub lfn2pfn_rc : Option N2n → Bytes → ℕ → Option Bytes × ℤ
lfn2pfn_rc none oldp blen = (some oldp, pos 0)
lfn2pfn_rc (some the_n2n) oldp blen =
    let (rc, newp) = the_n2n oldp blen in
    if is_set (neg rc) then (none, neg rc) else (some newp, neg rc)

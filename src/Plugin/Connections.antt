-- ===== src/Plugin/Connections.antt =====
-- The cache of connections: one for each user, made on first use.
use xrootd_hdfs.Base.{
  ℕ, true, some, [], ◌∷◌, ◌≡◌, ◌↔◌, inl, inr, Bytes, arith, if◌then◌else◌, Option-cases,
}
use xrootd_hdfs.Env.{Env, External}
use xrootd_hdfs.Plugin.{connect_user, find_fs, eq_bytes}

pub eq_bytes_iff : (s t : Bytes) → (eq_bytes s t ≡ true) ↔ (s ≡ t)
eq_bytes_iff [] [] = ground arith
eq_bytes_iff [] (b ∷ t) = ground arith
eq_bytes_iff (a ∷ s) [] = ground arith
eq_bytes_iff (a ∷ s) (b ∷ t) = ground (arith, eq_bytes_iff s t)

-- The cache after `hadoop_connect`: what was returned for this user, and what it held for others.
-- A failed connection leaves no entry.
pub find_fs-connect_user :
    {W : Type 0} (x : External W) (inst : Bytes) (port : ℕ) (user v : Bytes) (e : Env W)
    → find_fs v (connect_user x inst port user e).1.fs_map
      ≡ (if eq_bytes user v then (connect_user x inst port user e).0 else find_fs v e.fs_map)
unfolding connect_user
find_fs-connect_user x inst port user v e = elim (Option-cases (find_fs user e.fs_map)) [
  | inl new ↦ ground (arith, eq_bytes_iff user v)
  | inr (fs, old) ↦ ground (arith, eq_bytes_iff user v)
]

-- A user who is connected is connected at once: the same file system, no call, no change.
pub connect_user_again :
    {W : Type 0} (x : External W) (inst : Bytes) (port : ℕ) (user : Bytes) (e : Env W) {fs : ℕ}
    → (connect_user x inst port user e).0 ≡ some fs
    → let e' = (connect_user x inst port user e).1 in
      connect_user x inst port user e' ≡ (some fs, e')
unfolding connect_user
connect_user_again x inst port user e h =
    ground (arith, find_fs-connect_user x inst port user user e, eq_bytes_iff user user)

-- ===== src/Directory.antt =====
-- src/XrdHdfs.cc, `XrdHdfsDirectory`: a listing that is read entry by entry.
pub mod Names
pub mod Walk
mod Tests
use mathlib.Core.Option
use xrootd_hdfs.Base.{
  ℕ, zero, suc, ℤ, pos, neg, ◌+◌, ◌-◌, Bool, true, false, Option, none, some, List, [], ◌∷◌, Bytes,
  take, drop, length, is_set, is_neg, leb, ltb, ◌==◌, ◌&&◌, ◌||◌, if◌then◌else◌,
}
use xrootd_hdfs.Env.{
  Env, M, External, Client, FileInfo, Listing, pure, ◌>>=◌, ◌>>◌, call, get_errno, set_errno,
  unless_null, branch, einval, eio, ebadf, enomem,
}
use xrootd_hdfs.Plugin.{emsg, connect_client, get_real_path}
use xrootd_hdfs.Sys.{Stat, stat_of}

-- `dh` is the array of entries; `stat_buf` says that `StatRet` gave a buffer. What is put there is part
-- of the result of `Readdir`. The constructor's `fs` is never set: `Opendir` has a local of that name.
pub record Directory : Type 0 where
  pub dh : Option (List FileInfo)
  pub num_entries : ℕ
  pub dir_pos : ℕ
  pub fname : Option Bytes
  pub isopen : Bool
  pub stat_buf : Bool

abbrev pub new_directory : Directory
new_directory = record {
  dh = none;
  num_entries = 0;
  dir_pos = 0;
  fname = none;
  isopen = false;
  stat_buf = false;
}

-- What `Readdir` leaves behind: its code, the text in `buff` if it was written, and what was put in the
-- buffer of `StatRet`.
pub record Entry : Type 0 where
  pub code : ℤ
  pub name : Option Bytes
  pub status : Option Stat

-- `full_name.erase(0, full_name.rfind("/"))`: with no slash `rfind` gives npos, and all is erased.
pub from_last_slash : Bytes → Bytes
from_last_slash [] = []
from_last_slash (c ∷ s) = elim (from_last_slash s) [
  | d ∷ t ↦ d ∷ t
  | [] ↦ if c == b'/' then c ∷ s else []
]

-- `strlcpy(buff, text, blen)`: at most `blen - 1` bytes; nothing is written if `blen` is 0.
pub strlcpy : Bytes → ℕ → Option Bytes
strlcpy text zero = none
strlcpy text (suc n) = some (take n text)

-- `dh[i]`.
pub entry_at : List FileInfo → ℕ → Option FileInfo
entry_at [] i = none
entry_at (info ∷ dh) zero = some info
entry_at (info ∷ dh) (suc i) = entry_at dh i

module _ {W : Type 0} (x : External W) where
  -- `Opendir`. HDFS gives NULL with `errno` 0 for an empty directory. A `Directory` that fails to open
  -- keeps what was set before.
  unfoldable pub opendir : Directory → Bytes → Client → M W (ℤ × Directory)
  unfolding emsg
  opendir d dir_path client = branch (d.isopen) (pure (neg einval, d)) do
    fs ← connect_client x (some client)
    unless_null fs (do rc ← emsg eio; pure (rc, d))
        λ f. do
          fname ← get_real_path x dir_path
          unless_null fname (pure (neg enomem, record d { fname = none })) λ name. do
            set_errno (pos 0)
            l ← call (x.list_directory f name)
            n ← get_errno
            let listed = record d {
              dh = l.entries;
              num_entries = l.count;
              dir_pos = 0;
              fname = some name;
            }
            unless_null l.entries
                (branch (is_set n)
                  (pure (if is_neg n then neg eio else neg n, record listed { isopen = false }))
                  (pure (pos 0, record listed { isopen = true })))
                λ _. pure (pos 0, record listed { isopen = true })

pub is_null : Option (List FileInfo) → Bool
is_null none = true
is_null (some dh) = false

-- What stands behind the two tests of `Readdir`: the entry at the position, and the next position.
-- `none` is a read past the array.
pub next_entry : Directory → ℕ → List FileInfo → Option (Entry × Directory)
unfolding from_last_slash strlcpy entry_at stat_of
next_entry d blen dh = elim (entry_at dh d.dir_pos) [
  | none ↦ none
  | some info ↦ some (
    record {
      code = pos 0;
      name = strlcpy (from_last_slash info.name) blen;
      status = if d.stat_buf then some (stat_of info) else none;
    },
    record d { dir_pos = d.dir_pos + 1 },
  )
]

-- A result of `Readdir` with no entry.
abbrev pub plain : ℤ → Option Bytes → Entry
plain code name = record { code = code; name = name; status = none }

module _ {W : Type 0} where
  -- `Readdir`.
  unfoldable pub readdir : Directory → ℕ → M W (Option (Entry × Directory))
  unfolding next_entry emsg
  readdir d blen =
      branch d.isopen
        (branch (leb d.num_entries d.dir_pos) (pure (some (plain (pos 0) (some []), d))) (
          unless_null d.dh (do _ ← emsg ebadf; pure (some (plain (neg ebadf) none, d)))
            λ dh. pure (next_entry d blen dh)))
        (pure (some (plain (neg ebadf) none, d)))

  -- `StatRet`: the code, and the directory that holds the buffer from now on.
  unfoldable pub stat_ret : Directory → M W (ℤ × Directory)
  unfolding emsg is_null
  stat_ret d =
      branch d.isopen
        (branch (ltb 0 d.num_entries && is_null d.dh) (do _ ← emsg ebadf; pure (neg ebadf, d))
          (pure (pos 0, record d { stat_buf = true })))
        (pure (neg ebadf, d))

-- `Close`: the buffer of `StatRet` stays set.
unfoldable pub close : Directory → ℤ × Directory
close d =
    if d.isopen
    then (pos 0, record d { dh = none; num_entries = 0; dir_pos = 0; fname = none; isopen = false })
    else (neg ebadf, d)

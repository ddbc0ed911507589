-- ===== src/Env.antt =====
-- What the plugin runs against: `errno`, the plugin's own process-wide state, and the calls that
-- src/XrdHdfs.cc makes of code outside the repository (libhdfs, malloc, a Name2Name object).
use Prim.Native.Char.{code}
use Prim.Native.String.{String}
use xrootd_hdfs.Base.{ℕ, ℤ, pos, Bool, true, false, Option, none, some, List, [], ◌∷◌, Bytes}

abbrev pub codes : String → Bytes
codes String.[] = []
codes (String.◌∷◌ c s) = code c ∷ codes s

-- The `errno` values and the flags of `open` that the sources name, with Linux's numbers.
abbrev pub enoent : ℤ
enoent = pos 2

abbrev pub esrch : ℤ
esrch = pos 3

abbrev pub eintr : ℤ
eintr = pos 4

abbrev pub eio : ℤ
eio = pos 5

abbrev pub ebadf : ℤ
ebadf = pos 9

abbrev pub enomem : ℤ
enomem = pos 12

abbrev pub eexist : ℤ
eexist = pos 17

abbrev pub eisdir : ℤ
eisdir = pos 21

abbrev pub einval : ℤ
einval = pos 22

abbrev pub edom : ℤ
edom = pos 33

abbrev pub enametoolong : ℤ
enametoolong = pos 36

abbrev pub enotsup : ℤ
enotsup = pos 95

abbrev pub o_rdonly : ℕ
o_rdonly = 0

abbrev pub o_wronly : ℕ
o_wronly = 1

abbrev pub o_rdwr : ℕ
o_rdwr = 2

abbrev pub o_trunc : ℕ
o_trunc = 512

-- `tObjectKind` and `hdfsFileInfo` of hdfs.h, the fields that the plugin reads.
pub data Kind : Type 0 where
  file directory : Kind

pub record FileInfo : Type 0 where
  pub kind : Kind
  pub name : Bytes
  pub last_mod : ℤ
  pub size : ℕ
  pub permissions : ℕ

-- The object of `the_N2N`: `lfn2pfn(path, buff, blen)` gives a code and what it puts in `buff`.
abbrev pub N2n : Type 0
N2n = Bytes → ℕ → ℤ × Bytes

-- `einfo` is the code last given to `setErrInfo`, `fs_map` is `g_fs_map`, and a pointer to a file
-- system or an open file is a number, or `none` for NULL.
pub record Env (W : Type 0) : Type 0 where
  pub world : W
  pub errno : ℤ
  pub einfo : ℤ
  pub fs_map : List (Bytes × ℕ)
  pub cmsd_fs : Option ℕ
  pub n2n : Option N2n

abbrev pub M : Type 0 → Type 0 → Type 0
M W A = Env W → A × Env W

-- A call of outside code reads and changes the outside world and `errno`, and nothing else.
abbrev pub Call : Type 0 → Type 0 → Type 0
Call W A = W → ℤ → A × W × ℤ

-- `hdfsPread` gives the bytes that it read, or a negative count.
pub data Pread : Type 0 where
  got : Bytes → Pread
  failed : Pread

-- What `hdfsListDirectory` returns, and the entry count that it stores.
pub record Listing : Type 0 where
  pub entries : Option (List FileInfo)
  pub count : ℕ

pub record External (W : Type 0) : Type 0 where
  pub alloc : ℕ → Call W Bool
  pub connect_as : Bytes → ℕ → Bytes → Call W (Option ℕ)
  pub open_file : ℕ → Option Bytes → ℕ → Call W (Option ℕ)
  pub close_file : Option ℕ → ℕ → Call W ℤ
  pub pread : Option ℕ → Option ℕ → ℕ → ℕ → Call W Pread
  pub write : Option ℕ → Option ℕ → Bytes → Call W ℤ
  pub path_info : Option ℕ → Option Bytes → Call W (Option FileInfo)
  pub list_directory : ℕ → Bytes → Call W Listing
  pub chmod : ℕ → Bytes → ℕ → Call W ℤ
  pub create_directory : ℕ → Bytes → Call W ℤ
  pub delete : ℕ → Bytes → Call W ℤ
  pub rename : ℕ → Bytes → Bytes → Call W ℤ
  pub exists : ℕ → Bytes → Call W ℤ

-- `XrdOucEnv`: its security entity, with the attribute `request.name` and the field `name`.
pub record Sec : Type 0 where
  pub request_name : Option Bytes
  pub name : Option Bytes

pub record Client : Type 0 where
  pub sec : Option Sec

module _ {W : Type 0} where
  abbrev pub pure : {A : Type 0} → A → M W A
  pure a e = (a, e)

  infixl 5 ◌>>=◌ ◌>>◌
  abbrev pub ◌>>=◌ : {A B : Type 0} → M W A → (A → M W B) → M W B
  ◌>>=◌ m f e = let (a, e') = m e in f a e'

  abbrev pub ◌>>◌ : {B : Type 0} → M W (Unit {0}) → M W B → M W B
  ◌>>◌ m k e = let (_, e') = m e in k e'

  abbrev pub call : {A : Type 0} → Call W A → M W A
  call c e = let (a, w, n) = c e.world e.errno in (a, record e { world = w; errno = n })

  abbrev pub get_errno : M W ℤ
  get_errno e = (e.errno, e)

  abbrev pub set_errno : ℤ → M W (Unit {0})
  set_errno n e = (tt, record e { errno = n })

  -- A pointer that may be NULL, and a test, each with the rest of the code on either branch.
  abbrev pub unless_null : {A B : Type 0} → Option A → M W B → (A → M W B) → M W B
  unless_null none bail go e = bail e
  unless_null (some a) bail go e = go a e

  abbrev pub branch : {A : Type 0} → Bool → M W A → M W A → M W A
  branch true yes_branch no_branch e = yes_branch e
  branch false yes_branch no_branch e = no_branch e

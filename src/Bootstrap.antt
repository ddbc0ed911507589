-- ===== src/Bootstrap.antt =====
-- src/XrdHdfsBootstrap.cc: the plugin that XRootD loads. It takes three variables from the output of the
-- program of EnvCheck.antt, loads the JVM, and hands on to the real plugin.
pub mod Variables
pub mod Reading
pub mod Jvm
pub mod Scanning
pub mod RoundTrip
pub mod Loading
mod Tests
use mathlib.Core.Option
use xrootd_hdfs.Base.{
  ℕ, zero, suc, ℤ, pos, ◌+◌, ◌-◌, ◌≤◌, Option, none, some, List, [], ◌∷◌, ◌++◌, Bytes, Bool, true,
  false, length, take, drop, overwrite, ltb, leb, ◌==◌, if◌then◌else◌,
}
use xrootd_hdfs.Env.{Call, codes}
use xrootd_hdfs.Plugin.{eq_bytes}
use xrootd_hdfs.Checksum.Entries.{until_nul}

-- What `pclose` says of the child: -1, an exit with a code, or another end.
pub data Exit : Type 0 where
  unknown killed : Exit
  exited : ℕ → Exit

-- The calls of outside code. `popen` gives what the child prints, and `start` is the entry point of the
-- real plugin, or `none` if the plugin has none.
pub record Loader (W : Type 0) : Type 0 where
  pub popen : Call W (Option Bytes)
  pub pclose : Call W Exit
  pub dlopen : Bytes → Call W Bool
  pub entry_point : Call W (Option ℕ)
  pub start : ℕ → Call W (Option ℕ)

-- The variables of the process, the last one set first.
abbrev pub Environ : Type 0
Environ = List (Bytes × Bytes)

abbrev pub getenv : Bytes → Environ → Option Bytes
getenv name [] = none
getenv name ((var, value) ∷ environ) = if eq_bytes var name then some value else getenv name environ

-- `strchr(text, c)`: what stands before the byte, and behind it.
unfoldable pub cut_at : ℕ → Bytes → Option (Bytes × Bytes)
cut_at c [] = none
cut_at c (d ∷ s) =
    if d == c then some ([], s) else Option.map (λ (name, value). (d ∷ name, value)) (cut_at c s)

-- `CheckEnvVar`, or `none` for 0: `strncmp(input, var, n)` looks at the bytes before the sign alone.
unfoldable pub check_env_var : Bytes → Bytes → Environ → Option Environ
unfolding cut_at
check_env_var var input environ = elim (cut_at b'=' input) [
  | none ↦ none
  | some (name, value) ↦
      if eq_bytes name (take (length name) var) then some ((var, value) ∷ environ) else none
]

-- The variables of `DetermineEnvironment`.
pub record Scan : Type 0 where
  pub needs_classpath : Bool
  pub needs_libhdfs_opts : Bool
  pub needs_ld_library_path : Bool
  pub environ : Environ

abbrev pub checked_var : Bool → Bytes → Bytes → Environ → Option Environ
checked_var needed var input environ = if needed then check_env_var var input environ else none

-- The body of the inner loop on one string.
unfoldable pub scan_entry : Scan → Bytes → Scan
unfolding check_env_var
scan_entry s input = elim (checked_var s.needs_classpath (codes "CLASSPATH") input s.environ) [
  | some environ ↦ record s { needs_classpath = false; environ = environ }
  | none ↦ elim (checked_var s.needs_libhdfs_opts (codes "LIBHDFS_OPTS") input s.environ) [
    | some environ ↦ record s { needs_libhdfs_opts = false; environ = environ }
    | none ↦ elim (checked_var s.needs_ld_library_path (codes "LD_LIBRARY_PATH") input s.environ) [
      | some environ ↦ record s { needs_ld_library_path = false; environ = environ }
      | none ↦ s
    ]
  ]
]

-- `BUFSIZE`, of the buffer `environ_buffer`.
abbrev pub buffer_size : ℕ
buffer_size = 8192

-- The inner loop, from `cur_pos` on, with fuel: the variables, and the position behind it. `none` is a
-- read outside the buffer, or that the fuel ran out.
unfoldable pub scan_buffer : ℕ → Bytes → ℕ → Scan → Option (Scan × ℕ)
unfolding scan_entry until_nul
scan_buffer zero mem cur_pos s = none
scan_buffer (suc fuel) mem cur_pos s = elim (ltb cur_pos (length mem)) [
  | false ↦ none
  | true ↦ elim (until_nul (drop cur_pos mem)) [
    | [] ↦ some (s, cur_pos)
    | c ∷ text ↦ scan_buffer fuel mem (cur_pos + length (c ∷ text) + 1) (scan_entry s (c ∷ text))
  ]
]

-- `fgets`: the bytes up to a newline, at most `n`, and what is left of the stream.
unfoldable pub take_line : ℕ → Bytes → Bytes × Bytes
take_line zero stream = ([], stream)
take_line (suc n) [] = ([], [])
take_line (suc n) (c ∷ stream) = elim (c == 10) [
  | true ↦ (c ∷ [], stream)
  | false ↦ let (line, rest) = take_line n stream in (c ∷ line, rest)
]

-- A round of the outer loop goes on behind the inner one.
abbrev pub after_scan : (Scan → ℕ → Option Scan) → Option (Scan × ℕ) → Option Scan
after_scan again none = none
after_scan again (some (s, cur_pos)) = again s cur_pos

-- The outer loop: `cur_pos` goes on from round to round, though `fgets` stores at the front again.
unfoldable pub read_environ : ℕ → Bytes → ℕ → Scan → Bytes → Option Scan
unfolding scan_buffer take_line
read_environ zero mem cur_pos s stream = none
read_environ (suc fuel) mem cur_pos s [] = some s
read_environ (suc fuel) mem cur_pos s (c ∷ stream) =
    let (line, rest) = take_line (buffer_size - 2) (c ∷ stream) in
    let mem' = overwrite mem 0 (line ++ 0 ∷ []) in
    after_scan (λ s' cur_pos'. read_environ fuel mem' cur_pos' s' rest)
      (scan_buffer buffer_size mem' cur_pos s)

abbrev pub first_scan : Environ → Scan
first_scan environ = record {
  needs_classpath = true;
  needs_libhdfs_opts = true;
  needs_ld_library_path = true;
  environ = environ;
}

-- `memset` of the buffer.
zero_bytes : ℕ → Bytes
zero_bytes zero = []
zero_bytes (suc n) = 0 ∷ zero_bytes n

-- What `DetermineEnvironment` does with the output of the child.
unfoldable pub scan_output : Bytes → Environ → Option Scan
unfolding read_environ zero_bytes
scan_output output environ =
    read_environ (suc (length output)) (zero_bytes buffer_size) 0 (first_scan environ) output

-- The code that the status of the child gives.
unfoldable pub status_code : Exit → ℕ
status_code unknown = 1
status_code killed = 1
status_code (exited zero) = 0
status_code (exited (suc status)) = 1

-- The first directory of a path, and what stands behind the colon.
unfoldable pub cut_path : Bytes → Bytes × Option Bytes
unfolding cut_at
cut_path path = elim (cut_at b':' path) [
  | none ↦ (path, none)
  | some (dir, next) ↦ (dir, some next)
]

abbrev pub Found : Type 0 → Type 0
Found W = Option (ℕ × W × ℤ)

-- The end of a round of `loadJvm`: there is no next directory, or the path ends behind the colon.
unfoldable pub next_dir : {W : Type 0} → (Bytes → W → ℤ → Found W) → Option Bytes → W → ℤ → Found W
next_dir again none w errno = some (1, w, errno)
next_dir again (some []) w errno = some (1, w, errno)
next_dir again (some (c ∷ path)) w errno = again (c ∷ path) w errno

module _ {W : Type 0} (l : Loader W) where
  -- `DetermineEnvironment`: its code, and the variables of the process.
  pub determine_environment : Environ → W → ℤ → Option ((ℕ × Environ) × W × ℤ)
  unfolding scan_output status_code
  determine_environment environ w errno =
      let (fp, w1, n1) = l.popen w errno in
      elim fp [
        | none ↦ some ((1, environ), w1, n1)
        | some output ↦ elim (scan_output output environ) [
          | none ↦ none
          | some s ↦
              let (status, w2, n2) = l.pclose w1 n1 in
              some ((status_code status, s.environ), w2, n2)
        ]
      ]

  -- One directory: a name that does not fit the buffer ends the search, an empty name is skipped.
  unfoldable pub try_dir : (W → ℤ → Found W) → Bytes → W → ℤ → Found W
  try_dir rest dir w errno =
      let (ok, w', n) = l.dlopen (dir ++ codes "/libjvm.so") w errno in
      if leb buffer_size (length dir + 10)
      then some (1, w, errno)
      else (elim dir [ [] ↦ rest w errno | c ∷ d ↦ if ok then some (0, w', n) else rest w' n ])

  -- `loadJvm` on a path, with fuel: 0 if a library was loaded.
  unfoldable pub search_jvm : ℕ → Bytes → W → ℤ → Found W
  unfolding cut_path next_dir try_dir
  search_jvm zero path w errno = none
  search_jvm (suc fuel) path w errno =
      let (dir, next) = cut_path path in try_dir (next_dir (search_jvm fuel) next) dir w errno

  unfoldable pub load_jvm : Environ → W → ℤ → Found W
  unfolding search_jvm
  load_jvm environ w errno = elim (getenv (codes "LD_LIBRARY_PATH") environ) [
    | none ↦ some (1, w, errno)
    | some path ↦ search_jvm (suc (length path)) path w errno
  ]

  -- The entry point of the real plugin, if there is one.
  start_plugin : W → ℤ → Option ℕ × W × ℤ
  start_plugin w errno =
      let (ep, w', n) = l.entry_point w errno in
      elim ep [ none ↦ (none, w', n) | some f ↦ l.start f w' n ]

  -- `Bootstrap`: the storage system, or `none` for NULL. What `loadJvm` returns is not used.
  unfoldable pub bootstrap : Environ → W → ℤ → Option ((Option ℕ × Environ) × W × ℤ)
  unfolding determine_environment load_jvm start_plugin
  bootstrap environ w errno = elim (determine_environment environ w errno) [
    | none ↦ none
    | some ((suc code, environ'), w1, n1) ↦ some ((none, environ'), w1, n1)
    | some ((zero, environ'), w1, n1) ↦ elim (load_jvm environ' w1 n1) [
      | none ↦ none
      | some (_, w2, n2) ↦ let (oss, w3, n3) = start_plugin w2 n2 in some ((oss, environ'), w3, n3)
    ]
  ]

  -- `XrdOssGetStorageSystem`: `g_hdfs_oss` keeps the first storage system that was made. The result,
  -- the new `g_hdfs_oss`, and the variables.
  unfoldable pub get_storage_system :
      Option ℕ → Environ → W → ℤ → Option ((Option ℕ × Option ℕ × Environ) × W × ℤ)
  unfolding bootstrap
  get_storage_system (some oss) environ w errno = some ((some oss, some oss, environ), w, errno)
  get_storage_system none environ w errno = elim (bootstrap environ w errno) [
    | none ↦ none
    | some ((result, environ'), w', n) ↦ some ((result, result, environ'), w', n)
  ]

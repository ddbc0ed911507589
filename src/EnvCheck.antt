-- ===== src/EnvCheck.antt =====
-- src/XrdHdfsEnvCheck.cc: the program that prints three variables of its environment, each behind its
-- name and with a NUL, for the loader to read.
pub mod Printing
mod Tests
use xrootd_hdfs.Base.{
  ℕ, zero, suc, ℤ, pos, negsuc, ◌+◌, ◌-◌, ◌%◌, ◌^◌, Option, none, some, List, [], ◌∷◌, ◌++◌, Bytes,
  true, false, length, take, overwrite, is_set, eq_ℤ, ◌==◌, if◌then◌else◌,
}
use xrootd_hdfs.Env.{Call, codes, eintr}
use xrootd_hdfs.ReadAhead.{sub_size}

-- `write(1, buf + cur, count)`: the memory, the position in it, and the count.
pub record Stdout (W : Type 0) : Type 0 where
  pub write_out : Bytes → ℕ → ℕ → Call W ℤ

-- A `ssize_t` as a `size_t`.
abbrev pub as_size : ℤ → ℕ
as_size (pos n) = n % 2 ^ 64
as_size (negsuc n) = 2 ^ 64 - suc n

-- `BUFSIZE`.
abbrev pub bufsize : ℕ
bufsize = 8192

-- `snprintf(buf, BUFSIZE, …)` of a text: as much of it as fits, and a NUL.
pub print_into : Bytes → Bytes → Bytes
print_into mem text = overwrite mem 0 (take (bufsize - 1) text ++ 0 ∷ [])

-- What the program prints, in order: `getenv` gives `none` for a variable that is not set.
abbrev pub Vars : Type 0
Vars = List (Bytes × Option Bytes)

abbrev pub vars_of : Option Bytes → Option Bytes → Option Bytes → Vars
vars_of classpath libhdfs_opts ld_library_path =
    (codes "CLASSPATH", classpath)
    ∷ (codes "LIBHDFS_OPTS", libhdfs_opts)
    ∷ (codes "LD_LIBRARY_PATH", ld_library_path)
    ∷ []

-- How a loop of writes ended: its code, and the world and `errno` behind it.
abbrev pub Written : Type 0 → Type 0
Written W = Option (ℤ × W × ℤ)

-- The rest of a round, by what `write` returned; `again` is the next round.
pub after_write : {W : Type 0} → (ℕ → ℕ → ℤ → W → ℤ → Written W) → ℕ → ℕ → ℤ × W × ℤ → Written W
after_write again cur_buffer len (negsuc zero, w, errno) = elim (eq_ℤ errno eintr) [
  | true ↦ again cur_buffer len (negsuc 0) w errno
  | false ↦ some (errno, w, errno)
]
after_write again cur_buffer len (negsuc (suc n), w, errno) =
    again (cur_buffer - suc (suc n)) (sub_size len (as_size (negsuc (suc n)))) (negsuc (suc n)) w
      errno
after_write again cur_buffer len (pos n, w, errno) =
    again (cur_buffer + n) (sub_size len (as_size (pos n))) (pos n) w errno

-- `main` goes on behind an `XWRITE` that did not return.
pub unless_failed : {W : Type 0} → (W → ℤ → Written W) → Option (Option ℤ × W × ℤ) → Written W
unless_failed go none = none
unless_failed go (some (some code, w, errno)) = some (code, w, errno)
unless_failed go (some (none, w, errno)) = go w errno

module _ {W : Type 0} (o : Stdout W) where
  -- `safe_write`: the loop, with `result` of the round before. It takes fuel, since it retries EINTR
  -- without a limit.
  pub safe_write : ℕ → Bytes → ℕ → ℕ → ℤ → W → ℤ → Written W
  unfolding after_write
  safe_write zero buf cur_buffer len result w errno = none
  safe_write (suc fuel) buf cur_buffer len result w errno = elim (len == 0) [
    | true ↦ some (pos 0, w, errno)
    | false ↦
        after_write (safe_write fuel buf) cur_buffer len
          (o.write_out buf cur_buffer (sub_size len (as_size result)) w errno)
  ]

  -- `XWRITE`: `none` inside says to go on, and a code that `main` returns it.
  pub write_nul : ℕ → Written W → Option (Option ℤ × W × ℤ)
  unfolding safe_write
  write_nul fuel none = none
  write_nul fuel (some (code, w, errno)) = elim (is_set code) [
    | true ↦ some (some (pos 1), w, errno)
    | false ↦ last (safe_write fuel (codes "\0\0") 0 1 (pos 0) w errno)
  ]
    where
      last : Written W → Option (Option ℤ × W × ℤ)
      last none = none
      last (some (code, w, errno)) = some (if is_set code then some (pos 1) else none, w, errno)

  pub xwrite : ℕ → Bytes → ℕ → W → ℤ → Option (Option ℤ × W × ℤ)
  unfolding write_nul
  xwrite fuel buf len w errno = write_nul fuel (safe_write fuel buf 0 len (pos 0) w errno)

  pub print_vars : ℕ → Bytes → Vars → W → ℤ → Option (ℤ × W × ℤ)
  unfolding xwrite print_into unless_failed
  print_vars fuel mem [] w errno = some (pos 0, w, errno)
  print_vars fuel mem ((name, none) ∷ vars) w errno = print_vars fuel mem vars w errno
  print_vars fuel mem ((name, some value) ∷ vars) w errno =
      let text = name ++ b'=' ∷ value in
      let mem' = print_into mem text in
      unless_failed (print_vars fuel mem' vars) (xwrite fuel mem' (length text) w errno)

  -- `main`, with what `getenv` gave for the three variables.
  unfoldable pub main :
      ℕ → Bytes → Option Bytes → Option Bytes → Option Bytes → W → ℤ → Option (ℤ × W × ℤ)
  unfolding print_vars
  main fuel zeroed classpath libhdfs_opts ld_library_path w errno =
      print_vars fuel zeroed (vars_of classpath libhdfs_opts ld_library_path) w errno

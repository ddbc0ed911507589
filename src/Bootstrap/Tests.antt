-- ===== src/Bootstrap/Tests.antt =====
-- Runs of the loader on small environments.
use xrootd_hdfs.Base.{
  ℕ, suc, ℤ, pos, ◌≤◌, Option, some, none, [], ◌∷◌, ◌++◌, slice, Bytes, length, ◌≡◌, ◌↔◌, refl,
  arith,
}
use xrootd_hdfs.Env.{codes}
use xrootd_hdfs.Plugin.{eq_bytes}
use xrootd_hdfs.EnvCheck.{Stdout, vars_of, main}
use xrootd_hdfs.EnvCheck.Printing.{TakesAll, lines}
use xrootd_hdfs.Bootstrap.{
  exited, Loader, Environ, Scan, check_env_var, scan_output, search_jvm, get_storage_system,
}
use xrootd_hdfs.Bootstrap.Variables.{StandsFor, check_env_var_iff}
use xrootd_hdfs.Bootstrap.Reading.{scan_output_total}
use xrootd_hdfs.Bootstrap.Jvm.{directories, try_dirs, search_jvm_lem}
use xrootd_hdfs.Bootstrap.RoundTrip.{assigned, scan_output-main}
use xrootd_hdfs.Bootstrap.Loading.{get_storage_system_total}

-- A child that prints one variable; the libraries are in /usr/lib, and the world counts the calls.
abbrev output : Bytes
output = codes "LD_LIBRARY_PATH=/opt:/usr/lib\0"

abbrev loader : Loader ℕ
loader = record {
  popen = λ w e. (some output, suc w, e);
  pclose = λ w e. (exited 0, suc w, e);
  dlopen = λ name w e. (eq_bytes name (codes "/usr/lib/libjvm.so"), suc w, e);
  entry_point = λ w e. (some 5, suc w, e);
  start = λ f w e. (some 42, suc w, e);
}

-- A shorter name is taken for the variable's.
short_name :
    check_env_var (codes "CLASSPATH") (codes "CLASS=/a.jar") []
    ≡ some ((codes "CLASSPATH", codes "/a.jar") ∷ [])
unfolding check_env_var
short_name = refl

check_env_var_iff_example :
    (check_env_var (codes "CLASSPATH") (codes "CLASS=/a.jar") []
      ≡ some ((codes "CLASSPATH", codes "/a.jar") ∷ []))
    ↔ StandsFor
        (codes "CLASSPATH")
        (codes "CLASS=/a.jar")
        []
        ((codes "CLASSPATH", codes "/a.jar") ∷ [])
check_env_var_iff_example =
    check_env_var_iff (codes "CLASSPATH") (codes "CLASS=/a.jar") []
      ((codes "CLASSPATH", codes "/a.jar") ∷ [])

scan_output_total_example : (s : Scan) × (scan_output output [] ≡ some s)
scan_output_total_example = scan_output_total output []

abbrev path : Bytes
path = codes "/opt:/usr/lib"

search_jvm_lem_example :
    search_jvm loader 14 path 0 (pos 0) ≡ try_dirs loader (directories path) 0 (pos 0)
search_jvm_lem_example = search_jvm_lem loader 14 path 0 (pos 0) (omega arith)

-- The world is what was printed.
abbrev pipe : Stdout Bytes
pipe = record { write_out = λ buf cur n w e. (pos n, w ++ slice buf cur n, e) }

pipe-TakesAll : TakesAll pipe (λ w. w)
pipe-TakesAll = record { whole = λ buf cur n w e. refl; printed = λ buf cur n w e. refl }

scan_output-main_example :
    (w' : Bytes) × (n : ℤ) × (s : Scan) × (main pipe 2 []
        (some (codes "/a"))
        none
        (some (codes "/b"))
        []
        (pos 0)
      ≡ some (pos 0, w', n))
    × (scan_output w' [] ≡ some s)
    × (s.environ ≡ assigned (vars_of (some (codes "/a")) none (some (codes "/b"))) [])
scan_output-main_example =
    scan_output-main pipe (λ w. w) (some (codes "/a")) none (some (codes "/b")) [] 0 [] [] (pos 0)
      pipe-TakesAll refl ((refl, refl), ((refl, refl), tt)) tt ((refl, refl), ((refl, refl), tt))
      short
  where
    short : length (lines (vars_of (some (codes "/a")) none (some (codes "/b")))) ≤ 8190
    short = unfold lines in omega arith

get_storage_system_total_example :
    (r : (Option ℕ × Option ℕ × Environ) × ℕ × ℤ) × (get_storage_system loader none [] 0 (pos 0)
      ≡ some r)
get_storage_system_total_example = get_storage_system_total loader none [] 0 (pos 0)

-- A child that prints nothing: no variable is set, and no library is looked for.
abbrev quiet : Loader ℕ
quiet = record loader { popen = λ w e. (some [], suc w, e) }

first_call : get_storage_system quiet none [] 0 (pos 0) ≡ some ((some 42, some 42, []), 4, pos 0)
unfolding get_storage_system
first_call = refl

-- ===== src/Bootstrap/Loading.antt =====
-- `XrdOssGetStorageSystem` as a whole: it returns, and it makes one storage system.
use xrootd_hdfs.Base.{
  ℕ, zero, suc, ℤ, ◌+◌, Option, none, some, List, [], ◌∷◌, ◌++◌, Bytes, length, leb, ◌≡◌, refl, sym,
  ap, ◌∙◌, inl, inr, arith, Bool-cases, Option-cases, if◌then◌else◌,
}
use xrootd_hdfs.Env.{codes}
use xrootd_hdfs.Bootstrap.{
  Loader, Found, Environ, buffer_size, try_dir, load_jvm, status_code, determine_environment,
  start_plugin, bootstrap, get_storage_system, getenv,
}
use xrootd_hdfs.Bootstrap.Jvm.{directories, try_dirs, search_jvm_lem}
use xrootd_hdfs.Bootstrap.Reading.{scan_output_total}

-- A result is there.
abbrev Ends : {R : Type 0} → Option R → Type 0
Ends {R} o = (r : R) × (o ≡ some r)

module _ {W : Type 0} (l : Loader W) where
  try_dir_total :
      (rest : W → ℤ → Found W) (dir : Bytes) (w : W) (e : ℤ)
      → ((w' : W) (e' : ℤ) → Ends (rest w' e'))
      → Ends (try_dir l rest dir w e)
  unfolding try_dir
  try_dir_total rest dir w e h = elim (Bool-cases (leb buffer_size (length dir + 10))) [
    | inl long ↦ rw (long, try_dir) ((1, w, e), refl)
    | inr fits ↦ rw (fits, try_dir) (in_dir dir)
  ]
    where
      in_dir :
          (d : Bytes)
          → Ends (
              let (ok, w', n) = l.dlopen (dir ++ codes "/libjvm.so") w e in
              elim d [ [] ↦ rest w e | c ∷ d' ↦ if ok then some (0, w', n) else rest w' n ])
      in_dir [] = h w e
      in_dir (c ∷ d') =
          let r = l.dlopen (dir ++ codes "/libjvm.so") w e in
          elim (Bool-cases r.0) [
            | inl ok ↦ rw ok ((0, r.1, r.2), refl)
            | inr missing ↦ rw missing (h r.1 r.2)
          ]

  try_dirs_total : (dirs : List Bytes) (w : W) (e : ℤ) → Ends (try_dirs l dirs w e)
  unfolding try_dirs
  try_dirs_total [] w e = ((1, w, e), refl)
  try_dirs_total (dir ∷ dirs) w e = try_dir_total (try_dirs l dirs) dir w e (try_dirs_total dirs)

  load_jvm_total : (environ : Environ) (w : W) (e : ℤ) → Ends (load_jvm l environ w e)
  unfolding load_jvm
  load_jvm_total environ w e = elim (Option-cases (getenv (codes "LD_LIBRARY_PATH") environ)) [
    | inl unset ↦ rw (unset, load_jvm) ((1, w, e), refl)
    | inr (path, set) ↦
        let (r, p) = try_dirs_total (directories path) w e in
        rw (set, load_jvm) (r, search_jvm_lem l (suc (length path)) path w e (omega arith) ∙ p)
  ]

  determine_environment_total :
      (environ : Environ) (w : W) (e : ℤ) → Ends (determine_environment l environ w e)
  unfolding determine_environment
  determine_environment_total environ w e =
      let r = l.popen w e in
      elim (Option-cases r.0) [
        | inl failed ↦ rw (failed, determine_environment) (((1, environ), r.1, r.2), refl)
        | inr (output, opened) ↦
            let (s, p) = scan_output_total output environ in
            let c = l.pclose r.1 r.2 in
            rw (opened, determine_environment, p, determine_environment)
              (((status_code c.0, s.environ), c.1, c.2), refl)
      ]

  -- What `Bootstrap` does behind `DetermineEnvironment`.
  after_environment :
      (environ : Environ) (w : W) (e : ℤ) (r : (ℕ × Environ) × W × ℤ)
      → determine_environment l environ w e ≡ some r
      → Ends (bootstrap l environ w e)
  unfolding bootstrap
  after_environment environ w e ((suc code, environ'), w1, n1) p =
      rw (p, bootstrap) (((none, environ'), w1, n1), refl)
  after_environment environ w e ((zero, environ'), w1, n1) p =
      let (r, q) = load_jvm_total environ' w1 n1 in
      let s = start_plugin l r.1 r.2 in
      rw (p, bootstrap, q, bootstrap) (((s.0, environ'), s.1, s.2), refl)

  -- The storage system that is returned is the one that is kept.
  get_storage_system_kept :
      (g : Option ℕ) (environ : Environ) (w : W) (e : ℤ)
      → (r : (Option ℕ × Option ℕ × Environ) × W × ℤ) × (get_storage_system l g environ w e
          ≡ some r)
        × (r.0.0 ≡ r.0.1)
  unfolding get_storage_system
  get_storage_system_kept (some oss) environ w e =
      (((some oss, some oss, environ), w, e), refl, refl)
  get_storage_system_kept none environ w e =
      let (d, p) = determine_environment_total environ w e in
      let (r, q) = after_environment environ w e d p in
      rw (q, get_storage_system) (((r.0.0, r.0.0, r.0.1), r.1, r.2), refl, refl)

  -- `XrdOssGetStorageSystem` returns, whatever the child prints and whatever the path of libraries is.
  pub get_storage_system_total :
      (g : Option ℕ) (environ : Environ) (w : W) (e : ℤ)
      → (r : (Option ℕ × Option ℕ × Environ) × W × ℤ) × (get_storage_system l g environ w e
          ≡ some r)
  get_storage_system_total g environ w e =
      let (r, p, _) = get_storage_system_kept g environ w e in (r, p)

  kept_later :
      (g' : Option ℕ) (later : Environ) (w2 : W) (e2 : ℤ) (oss : ℕ)
      → g' ≡ some oss
      → get_storage_system l g' later w2 e2 ≡ some ((some oss, g', later), w2, e2)
  unfolding get_storage_system
  kept_later g' later w2 e2 oss p = rw p refl

  -- Once a call has given a storage system, each later call gives the same one, whatever the variables
  -- are by then, and makes no outside call.
  pub get_storage_system-get_storage_system :
      (g g' : Option ℕ) (environ environ' later : Environ) (w w' w2 : W) (e e' e2 : ℤ) (oss : ℕ)
      → get_storage_system l g environ w e ≡ some ((some oss, g', environ'), w', e')
      → get_storage_system l g' later w2 e2 ≡ some ((some oss, g', later), w2, e2)
  get_storage_system-get_storage_system g g' environ environ' later w w' w2 e e' e2 oss p =
      let (r, q, same) = get_storage_system_kept g environ w e in
      let results : r ≡ ((some oss, g', environ'), w', e') =
        ap (λ o. elim o [ none ↦ r | some t ↦ t ]) (sym q ∙ p) in
      kept_later g' later w2 e2 oss
        (sym (ap (λ t. t.0.1) results) ∙ sym same ∙ ap (λ t. t.0.0) results)

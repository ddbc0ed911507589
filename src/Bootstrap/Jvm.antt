-- ===== src/Bootstrap/Jvm.antt =====
-- `loadJvm` tries the directories of the path in order.
use mathlib.Core.Path.{fun_ext}
use xrootd_hdfs.Base.{
  ℕ, zero, suc, ℤ, ◌<◌, Option, none, some, List, [], ◌∷◌, Bytes, length, ◌==◌, ◌≡◌, inl, inr, refl,
  sym, ap, ◌∙◌, arith, length-append, if◌then◌else◌, Bool-cases,
}
use mathlib.Core.Option
use xrootd_hdfs.Bootstrap.{Loader, Found, cut_at, cut_path, next_dir, try_dir, search_jvm}
use xrootd_hdfs.Bootstrap.Variables.{cut_at_cases}

add_byte : ℕ → List Bytes → List Bytes
add_byte c [] = []
add_byte c (dir ∷ dirs) = (c ∷ dir) ∷ dirs

-- The directories of a path: what stands between its colons.
unfoldable pub directories : Bytes → List Bytes
unfolding add_byte
directories [] = [] ∷ []
directories (c ∷ path) = if c == b':' then [] ∷ directories path else add_byte c (directories path)

-- A path with no colon is one directory; else the directories are the text before the first colon and
-- those of the text behind it.
abbrev cut_dirs : Bytes → Option (Bytes × Bytes) → List Bytes
cut_dirs path none = path ∷ []
cut_dirs path (some (dir, next)) = dir ∷ directories next

add_byte-cut_dirs :
    (c : ℕ) (path : Bytes) (o : Option (Bytes × Bytes))
    → add_byte c (cut_dirs path o)
      ≡ cut_dirs (c ∷ path) (Option.map (λ (dir, next). (c ∷ dir, next)) o)
unfolding add_byte
add_byte-cut_dirs c path none = refl
add_byte-cut_dirs c path (some (dir, next)) = refl

directories-cut_dirs : (path : Bytes) → directories path ≡ cut_dirs path (cut_at b':' path)
unfolding directories cut_at
directories-cut_dirs [] = refl
directories-cut_dirs (c ∷ path) = elim (Bool-cases (c == b':')) [
  | inl colon ↦ rw (colon, cut_at, directories) refl
  | inr other ↦
      rw (other, cut_at, directories)
        (ap (add_byte c) (directories-cut_dirs path) ∙ add_byte-cut_dirs c path (cut_at b':' path))
]

cut_path-none : (path : Bytes) → cut_at b':' path ≡ none → cut_path path ≡ (path, none)
unfolding cut_path
cut_path-none path p = rw (p, cut_path) refl

cut_path-some :
    (path dir next : Bytes) → cut_at b':' path ≡ some (dir, next) → cut_path path ≡ (dir, some next)
unfolding cut_path
cut_path-some path dir next p = rw (p, cut_path) refl

module _ {W : Type 0} (l : Loader W) where
  -- Each directory in turn.
  unfoldable pub try_dirs : List Bytes → W → ℤ → Found W
  try_dirs [] w errno = some (1, w, errno)
  try_dirs (dir ∷ dirs) w errno = try_dir l (try_dirs dirs) dir w errno

  -- What is behind one directory: the rest of the search is that of the next directories.
  next_dir_lem :
      (again : Bytes → W → ℤ → Found W) (next : Bytes) (w : W) (e : ℤ)
      → (0 < length next → again next w e ≡ try_dirs (directories next) w e)
      → next_dir again (some next) w e ≡ try_dirs (directories next) w e
  unfolding next_dir try_dirs try_dir directories
  next_dir_lem again [] w e h = refl
  next_dir_lem again (c ∷ next) w e h = h (omega arith)

  -- `loadJvm` on a path, with fuel for each byte, tries each directory between the colons of the path in
  -- turn: the search ends with 0 at the first whose library is loaded, passes over an empty name, and
  -- ends with 1 at a name that does not fit the buffer or behind the last directory.
  pub search_jvm_lem :
      (fuel : ℕ) (path : Bytes) (w : W) (e : ℤ)
      → length path < fuel
      → search_jvm l fuel path w e ≡ try_dirs (directories path) w e
  unfolding search_jvm try_dirs
  search_jvm_lem zero path w e h = absurd (omega arith)
  search_jvm_lem (suc fuel) path w e h =
      let round : Bytes × Option Bytes → Found W =
        λ x. try_dir l (next_dir (search_jvm l fuel) x.1) x.0 w e in
      elim (cut_at_cases b':' path) [
        | inl p ↦
            ap round (cut_path-none path p)
            ∙ ap (λ rest. try_dir l rest path w e) none_left
            ∙ ap (λ dirs. try_dirs dirs w e)
                (sym (directories-cut_dirs path ∙ ap (cut_dirs path) p))
        | inr (dir, next, p, q, _) ↦
            ap round (cut_path-some path dir next p)
            ∙ ap (λ rest. try_dir l rest dir w e)
                (fun_ext λ w'. fun_ext λ e'.
                  next_dir_lem (search_jvm l fuel) next w' e' λ some_left.
                    search_jvm_lem fuel next w' e'
                      (omega (arith, ap length q, length-append dir (b':' ∷ next))))
            ∙ ap (λ dirs. try_dirs dirs w e)
                (sym (directories-cut_dirs path ∙ ap (cut_dirs path) p))
      ]
    where
      none_left : next_dir (search_jvm l fuel) none ≡ try_dirs []
      none_left = unfold next_dir try_dirs in fun_ext λ w. fun_ext λ e. refl

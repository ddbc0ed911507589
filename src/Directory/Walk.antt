-- ===== src/Directory/Walk.antt =====
-- `Readdir`, called until the end: it gives the entries of the listing in order, and stays at the end.
use mathlib.Core.Option
use xrootd_hdfs.Base.{
  ℕ, zero, suc, pos, ◌+◌, ◌≤◌, ◌<◌, Bool, true, false, Option, none, some, List, [], ◌∷◌, ◌++◌, map,
  drop, length, ◌≡◌, refl, sym, ap, ◌∙◌, drop-drop, arith, le→leb, lt→leb,
}
use xrootd_hdfs.Env.{Env, M, FileInfo, pure, branch, unless_null}
use xrootd_hdfs.Directory.{Directory, Entry, plain, entry_at, next_entry, readdir}
use xrootd_hdfs.Directory.Names.{listed, ListsAll, listed-ListsAll}

-- An open directory that holds the listing.
pub record IsOpen (d : Directory) (listing : List FileInfo) : Type 0 where
  pub isopen : d.isopen ≡ true
  pub dh : d.dh ≡ some listing
  pub counted : d.num_entries ≡ length listing

-- One call in front of others.
abbrev in_front :
    {W : Type 0}
    → (Directory → Env W → Option (List Entry × Directory))
    → Option (Entry × Directory) × Env W
    → Option (List Entry × Directory)
in_front again (none, e) = none
in_front again (some (entry, d), e) =
    Option.map (λ (entries, last). (entry ∷ entries, last)) (again d e)

-- `calls` calls of `Readdir`, and what each left behind.
pub read_entries : {W : Type 0} → ℕ → Directory → ℕ → Env W → Option (List Entry × Directory)
read_entries zero d blen e = some ([], d)
read_entries (suc calls) d blen e = in_front (λ d'. read_entries calls d' blen) (readdir d blen e)

abbrev pub at : Directory → ℕ → Directory
at d i = record d { dir_pos = i }

entry_at-drop :
    (listing : List FileInfo) (i : ℕ) (info : FileInfo) (rest : List FileInfo)
    → drop i listing ≡ info ∷ rest
    → entry_at listing i ≡ some info
unfolding entry_at
entry_at-drop [] zero info rest p = cc
entry_at-drop [] (suc i) info rest p = cc
entry_at-drop (x ∷ listing) zero info rest p = cc
entry_at-drop (x ∷ listing) (suc i) info rest p = entry_at-drop listing i info rest p

next_entry_lem :
    (d : Directory) (listing : List FileInfo) (info : FileInfo) (rest : List FileInfo) (blen : ℕ)
    → drop d.dir_pos listing ≡ info ∷ rest
    → next_entry d blen listing ≡ some (listed d.stat_buf blen info, at d (d.dir_pos + 1))
unfolding next_entry
next_entry_lem d listing info rest blen p =
    rw (entry_at-drop listing d.dir_pos info rest p, next_entry) refl

drop_more :
    (i : ℕ) (listing : List FileInfo) (info : FileInfo) (rest : List FileInfo)
    → drop i listing ≡ info ∷ rest
    → drop (i + 1) listing ≡ rest
drop_more i listing info rest p = sym (drop-drop 1 i listing) ∙ ap (drop 1) p

module _ {W : Type 0} where
  -- The tests at the front of `Readdir`.
  tests_passed :
      {A : Type 0} {closed past : Bool} {dh : Option (List FileInfo)} {listing : List FileInfo}
      (at_end null not_open : M W A) (go : List FileInfo → M W A) (e : Env W)
      → closed ≡ true
      → past ≡ false
      → dh ≡ some listing
      → branch closed (branch past at_end (unless_null dh null go)) not_open e ≡ go listing e
  tests_passed at_end null not_open go e p q r = rw (p, q, r) refl

  -- At the end `Readdir` gives an empty name and code 0, and stays there.
  readdir_end :
      (d : Directory) (blen : ℕ) (e : Env W)
      → d.isopen ≡ true
      → d.num_entries ≤ d.dir_pos
      → readdir d blen e ≡ (some (plain (pos 0) (some []), d), e)
  unfolding readdir
  readdir_end d blen e o h =
      at_end_lem _ _ (pure (some (plain (pos 0) (some []), d))) _ _ e o
        (le→leb d.num_entries d.dir_pos h)
    where
      at_end_lem :
          {A : Type 0} (closed past : Bool) (at_end go not_open : M W A) (e : Env W)
          → closed ≡ true
          → past ≡ true
          → branch closed (branch past at_end go) not_open e ≡ at_end e
      at_end_lem closed past at_end go not_open e p q = rw (p, q) refl

  readdir_entry :
      (d : Directory) (listing : List FileInfo) (info : FileInfo) (rest : List FileInfo) (blen : ℕ)
      (e : Env W)
      → IsOpen d listing
      → d.dir_pos < length listing
      → drop d.dir_pos listing ≡ info ∷ rest
      → readdir d blen e ≡ (some (listed d.stat_buf blen info, at d (d.dir_pos + 1)), e)
  unfolding readdir
  readdir_entry d listing info rest blen e o h p =
      tests_passed _ _ _ (λ dh. pure (next_entry d blen dh)) e o.isopen
        (lt→leb d.num_entries d.dir_pos (omega (arith, o.counted, h))) o.dh
      ∙ ap (λ r. (r, e)) (next_entry_lem d listing info rest blen p)

  read_entries_run :
      (rest listing : List FileInfo) (d : Directory) (blen : ℕ) (e : Env W)
      → IsOpen d listing
      → drop d.dir_pos listing ≡ rest
      → d.dir_pos + length rest ≡ length listing
      → read_entries (suc (length rest)) d blen e
        ≡ some (
          map (listed d.stat_buf blen) rest ++ plain (pos 0) (some []) ∷ [],
          at d (length listing),
        )
  unfolding read_entries
  read_entries_run [] listing d blen e o p n =
      let done : d.dir_pos ≡ length listing = omega (arith, n) in
      ap (in_front (λ d'. read_entries 0 d' blen))
        (readdir_end d blen e o.isopen (omega (arith, o.counted, n)))
      ∙ ap (λ i. some (plain (pos 0) (some []) ∷ [], at d i)) done
  read_entries_run (info ∷ rest) listing d blen e o p n =
      ap (in_front (λ d'. read_entries (suc (length rest)) d' blen))
        (readdir_entry d listing info rest blen e o (omega (arith, n)) p)
      ∙ ap (Option.map (λ (entries, last). (listed d.stat_buf blen info ∷ entries, last))) (
          read_entries_run rest listing (at d (d.dir_pos + 1)) blen e
            (record { isopen = o.isopen; dh = o.dh; counted = o.counted })
            (drop_more d.dir_pos listing info rest p) (omega (arith, n)))

  -- On an open directory, as many calls of `Readdir` as the listing has entries from the position on give
  -- an entry for each, in order: with code 0, the last slash of the name and what follows it, cut to the
  -- buffer, or the empty text if the name has no slash, and the status if that was asked for. The next
  -- call gives the end: an empty name and code 0.
  pub read_entries_lem :
      (rest listing : List FileInfo) (d : Directory) (blen : ℕ) (e : Env W)
      → IsOpen d listing
      → drop d.dir_pos listing ≡ rest
      → d.dir_pos + length rest ≡ length listing
      → (entries : List Entry) × ListsAll d.stat_buf blen rest entries
        × (read_entries (suc (length rest)) d blen e
            ≡ some (entries ++ plain (pos 0) (some []) ∷ [], at d (length listing)))
  read_entries_lem rest listing d blen e o p n = (
    map (listed d.stat_buf blen) rest,
    listed-ListsAll d.stat_buf blen rest,
    read_entries_run rest listing d blen e o p n,
  )

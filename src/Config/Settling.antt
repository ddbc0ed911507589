-- ===== src/Config/Settling.antt =====
-- What `Configure` gives for a file of given directives.
use xrootd_hdfs.Base.{
  ℕ, zero, suc, ℤ, pos, ◌≤◌, ◌<◌, Option, none, some, List, ◌∷◌, Bytes, true, false, length, bit_or,
  ◌≡◌, refl, ap, ◌∙◌, inl, inr, arith, Option-cases,
}
use xrootd_hdfs.Env.{N2n}
use xrootd_hdfs.Config.{
  Settings, Host, or_empty, config_n2n, set_n2n, set_dependent, finish_config, config_proc,
  configure, init_system, load_system,
}
use xrootd_hdfs.Config.Records.{Holds, read_records_lem}
use xrootd_hdfs.Config.Directives.{
  Directive, settled, named, last_namelib, all_well_formed, settled-named, settled_malformed,
}

-- The settings that the records are read with.
abbrev pub starting : Bytes → Settings → Settings
starting cfn k = record k { n2n_lib = none; config_fn = some cfn; the_n2n = none }

-- A code of 0 or 1 behind an error is 1.
or_one : (rc : ℕ) → rc ≤ 1 → bit_or 1 rc ≡ 1
or_one zero p = refl
or_one (suc zero) p = refl
or_one (suc (suc rc)) p = absurd (omega arith)

module _ {W S : Type 0} (h : Host W S) where
  set_n2n-code : (k : Settings) (r : Option N2n × W × ℤ) → (set_n2n k r).0.0 ≤ 1
  set_n2n-code k (none, w, e) = omega arith
  set_n2n-code k (some n2n, w, e) = omega arith

  config_n2n-code : (lib : Bytes) (k : Settings) (w : W) (e : ℤ) → (config_n2n h lib k w e).0.0 ≤ 1
  unfolding config_n2n
  config_n2n-code lib k w e =
      let r = h.get_plugin lib w e in
      elim (Option-cases r.0) [
        | inl missing ↦ rw (missing, config_n2n) (omega arith)
        | inr (f, found) ↦
            rw (found, config_n2n)
              (set_n2n-code k (h.get_name2name f k.config_fn (or_empty k.n2n_parms) r.1 r.2))
      ]

  set_dependent-code :
      (n : ℕ) (k : Settings) (w : W) (e : ℤ) → n ≡ 1 → (set_dependent h n k w e).0.0 ≡ 1
  unfolding set_dependent
  set_dependent-code n k w e p = elim (Option-cases k.n2n_lib) [
    | inl unset ↦ rw (unset, set_dependent) p
    | inr (lib, set) ↦
        rw (set, set_dependent)
          (ap (λ m. bit_or m (config_n2n h lib k w e).0.0) p
            ∙ or_one (config_n2n h lib k w e).0.0 (config_n2n-code lib k w e))
  ]

  -- Behind records that the stream holds, the outcome is that of what they settle.
  settled_outcome : ℕ × Settings → W → ℤ → (ℤ × Settings) × W × ℤ
  settled_outcome (no_go, k) w e =
      let ((rc, k'), w', n) = set_dependent h no_go k w e in ((pos rc, k'), w', n)

  finish_config_lem :
      (r : ℕ × Settings) (s : S) (w : W) (e : ℤ)
      → h.last_error s ≡ pos 0
      → finish_config h (r, s) w e ≡ settled_outcome r w e
  unfolding finish_config settled_outcome
  finish_config_lem r s w e p = rw (p, finish_config) refl

  configure-settled :
      (fuel c : ℕ) (cfn : Bytes) (k : Settings) (w : W) (e : ℤ) (s : S) (ds : List Directive)
      → (h.open_config (c ∷ cfn) w e).0 ≡ some s
      → Holds h s ds
      → length ds < fuel
      → let r = h.open_config (c ∷ cfn) w e in
        configure h fuel (some (c ∷ cfn)) k w e
        ≡ some (settled_outcome (settled ds (starting (c ∷ cfn) k) 0) r.1 r.2)
  unfolding configure config_proc
  configure-settled fuel c cfn k w e s ds p hs f =
      let r = h.open_config (c ∷ cfn) w e in
      let (s', q, clean) = read_records_lem h ds fuel s (starting (c ∷ cfn) k) 0 hs f in
      rw (p, config_proc, q, config_proc)
        (ap some (finish_config_lem (settled ds (starting (c ∷ cfn) k) 0) s' r.1 r.2 clean))

  -- For a file whose `namelib` directives are all well formed, `Configure` ends, with fuel for each
  -- record; the last of them names the library and its parameters, and the code is that of loading it,
  -- or 0 if there is none.
  pub configure_lem :
      (fuel c : ℕ) (cfn : Bytes) (k : Settings) (w : W) (e : ℤ) (s : S) (ds : List Directive)
      → (h.open_config (c ∷ cfn) w e).0 ≡ some s
      → Holds h s ds
      → length ds < fuel
      → all_well_formed ds ≡ true
      → let (_, w1, n1) = h.open_config (c ∷ cfn) w e in
        let loaded = set_dependent h 0 (named (starting (c ∷ cfn) k) (last_namelib ds)) w1 n1 in
        configure h fuel (some (c ∷ cfn)) k w e
        ≡ some ((pos loaded.0.0, loaded.0.1), loaded.1, loaded.2)
  unfolding settled_outcome
  configure_lem fuel c cfn k w e s ds p hs f good =
      let r = h.open_config (c ∷ cfn) w e in
      configure-settled fuel c cfn k w e s ds p hs f
      ∙ ap (λ o. some (settled_outcome o r.1 r.2)) (settled-named ds (starting (c ∷ cfn) k) 0 good)

  configure_malformed :
      (fuel c : ℕ) (cfn : Bytes) (k : Settings) (w : W) (e : ℤ) (s : S) (ds : List Directive)
      → (h.open_config (c ∷ cfn) w e).0 ≡ some s
      → Holds h s ds
      → length ds < fuel
      → all_well_formed ds ≡ false
      → (k' : Settings) × (w' : W) × (n : ℤ) × (configure h fuel (some (c ∷ cfn)) k w e
          ≡ some ((pos 1, k'), w', n))
  unfolding settled_outcome
  configure_malformed fuel c cfn k w e s ds p hs f bad =
      let r = h.open_config (c ∷ cfn) w e in
      let o = settled ds (starting (c ∷ cfn) k) 0 in
      let d = set_dependent h o.0 o.1 r.1 r.2 in
      (
        d.0.1,
        d.1,
        d.2,
        configure-settled fuel c cfn k w e s ds p hs f
            ∙ ap (λ rc. some ((pos rc, d.0.1), d.1, d.2))
                (set_dependent-code o.0 o.1 r.1 r.2
                  (settled_malformed ds (starting (c ∷ cfn) k) 0 bad)),
      )

  load_system-failed :
      (fuel : ℕ) (cfn : Option Bytes) (k k' : Settings) (w w' : W) (e n : ℤ)
      → init_system h fuel cfn k w e ≡ some ((pos 1, k'), w', n)
      → load_system h fuel cfn k w e ≡ some ((false, k'), w', n)
  unfolding load_system
  load_system-failed fuel cfn k k' w w' e n p = rw (p, load_system) refl

  -- One `namelib` directive without a path, or with parameters that do not fit, and the plugin is not
  -- loaded, whatever the other directives are: `Init` gives 1, and `XrdOssGetStorageSystem` NULL.
  pub load_system-malformed :
      (fuel c : ℕ) (cfn : Bytes) (k : Settings) (w : W) (e : ℤ) (s : S) (ds : List Directive)
      → (h.open_config (c ∷ cfn) w e).0 ≡ some s
      → Holds h s ds
      → length ds < fuel
      → all_well_formed ds ≡ false
      → (k' : Settings) × (w' : W) × (n : ℤ) × (init_system h fuel (some (c ∷ cfn)) k w e
          ≡ some ((pos 1, k'), w', n))
        × (load_system h fuel (some (c ∷ cfn)) k w e ≡ some ((false, k'), w', n))
  unfolding init_system
  load_system-malformed fuel c cfn k w e s ds p hs f bad =
      let reset = record k { n2n_lib = none; the_n2n = none } in
      let (k', w', n, q) = configure_malformed fuel c cfn reset w e s ds p hs f bad in
      (k', w', n, q, load_system-failed fuel (some (c ∷ cfn)) k k' w w' e n q)

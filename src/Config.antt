-- ===== src/Config.antt =====
-- src/XrdHdfsConfig.cc, and of src/XrdHdfs.cc `XrdHdfsSys::Init` and the entry point that call it: the configuration file is read
-- record by record, and a `namelib` directive names the library that translates paths.
pub mod Directives
pub mod Records
pub mod Settling
mod Tests
use xrootd_hdfs.Base.{
  ℕ, zero, suc, ℤ, pos, Option, none, some, List, [], ◌∷◌, Bytes, Bool, true, false, take, drop,
  is_set, bit_or, not, if◌then◌else◌,
}
use xrootd_hdfs.Env.{Call, N2n, codes}
use xrootd_hdfs.Plugin.{eq_bytes}

-- The members of `XrdHdfsSys` that the configuration sets.
pub record Settings : Type 0 where
  pub n2n_lib : Option Bytes
  pub n2n_parms : Option Bytes
  pub config_fn : Option Bytes
  pub the_n2n : Option N2n

-- The outside code: `open` and `Attach`, the reading calls of `XrdOucStream` on its state `S`, the code
-- that `XrdSysError::Emsg` makes of an error, and the library's entry point. `get_rest` gives `none` for a
-- text that does not fit.
pub record Host (W S : Type 0) : Type 0 where
  pub open_config : Bytes → Call W (Option S)
  pub get_my_first_word : S → Option Bytes × S
  pub get_word : S → Option Bytes × S
  pub get_rest : ℕ → S → Option Bytes × S
  pub last_error : S → ℤ
  pub emsg : ℤ → ℤ
  pub get_plugin : Bytes → Call W (Option ℕ)
  pub get_name2name : ℕ → Option Bytes → Bytes → Call W (Option N2n)

-- `*parms ? strdup(parms) : 0`.
abbrev pub parms_of : Bytes → Option Bytes
parms_of [] = none
parms_of (c ∷ s) = some (c ∷ s)

-- The outcome of a directive: its code, the settings, and the stream behind it.
abbrev pub Handled : Type 0 → Type 0
Handled S = (ℕ × Settings) × S

-- `xnml` behind `GetRest`.
abbrev pub record_parms : {S : Type 0} → Settings → Option Bytes × S → Handled S
record_parms k (none, s) = ((1, k), s)
record_parms k (some parms, s) = ((0, record k { n2n_parms = parms_of parms }), s)

-- `xnml` behind `GetWord`; `rest` is the call of `GetRest`.
abbrev pub record_path :
    {S : Type 0} → (S → Option Bytes × S) → Settings → Option Bytes × S → Handled S
record_path rest k (none, s) = ((1, k), s)
record_path rest k (some [], s) = ((1, k), s)
record_path rest k (some (c ∷ val), s) =
    record_parms (record k { n2n_lib = some (c ∷ val) }) (rest s)

-- `!strncmp(var, "oss.", 4)`.
abbrev pub is_oss : Bytes → Bool
is_oss var = eq_bytes (take 4 var) (codes "oss.")

-- `NoGo` behind a directive.
abbrev pub no_go_after : ℕ → ℕ → ℕ
no_go_after zero no_go = no_go
no_go_after (suc rc) no_go = 1

-- The rest of `ConfigProc` behind a directive.
abbrev pub after_directive :
    {S : Type 0} → (S → Settings → ℕ → Option (Handled S)) → ℕ → Handled S → Option (Handled S)
after_directive again no_go ((rc, k), s) = again s k (no_go_after rc no_go)

-- The result of `ConfigN2N`.
abbrev pub set_n2n : {W : Type 0} → Settings → Option N2n × W × ℤ → (ℕ × Settings) × W × ℤ
set_n2n k (none, w, errno) = ((1, record k { the_n2n = none }), w, errno)
set_n2n k (some n2n, w, errno) = ((0, record k { the_n2n = some n2n }), w, errno)

abbrev pub or_empty : Option Bytes → Bytes
or_empty none = []
or_empty (some s) = s

module _ {W S : Type 0} (h : Host W S) where
  unfoldable pub xnml : S → Settings → Handled S
  xnml s k = record_path (h.get_rest 1024) k (h.get_word s)

  unfoldable pub config_xeq : Bytes → S → Settings → Handled S
  unfolding xnml
  config_xeq var s k = if eq_bytes (codes "namelib") var then xnml s k else ((0, k), s)

  -- One record: `again` is the next round of the loop.
  pub next_record :
      (S → Settings → ℕ → Option (Handled S)) → Settings → ℕ → Option Bytes × S → Option (Handled S)
  unfolding config_xeq
  next_record again k no_go (none, s) = some ((no_go, k), s)
  next_record again k no_go (some var, s) = elim (is_oss var) [
    | true ↦ after_directive again no_go (config_xeq (drop 4 var) s k)
    | false ↦ again s k no_go
  ]

  -- The loop of `ConfigProc` over the records of the file, with fuel: `NoGo`, the settings, and the
  -- stream behind the last record.
  unfoldable pub read_records : ℕ → S → Settings → ℕ → Option (Handled S)
  unfolding next_record
  read_records zero s k no_go = none
  read_records (suc fuel) s k no_go =
      next_record (read_records fuel) k no_go (h.get_my_first_word s)

  -- `ConfigN2N`, for the library that was named.
  unfoldable pub config_n2n : Bytes → Settings → W → ℤ → (ℕ × Settings) × W × ℤ
  config_n2n lib k w errno =
      let (ep, w1, n1) = h.get_plugin lib w errno in
      elim ep [
        | none ↦ ((1, k), w1, n1)
        | some f ↦ set_n2n k (h.get_name2name f k.config_fn (or_empty k.n2n_parms) w1 n1)
      ]

  -- `if (N2N_Lib) NoGo |= ConfigN2N();`
  unfoldable pub set_dependent : ℕ → Settings → W → ℤ → (ℕ × Settings) × W × ℤ
  unfolding config_n2n
  set_dependent no_go k w errno = elim (k.n2n_lib) [
    | none ↦ ((no_go, k), w, errno)
    | some lib ↦ let ((rc, k'), w', n) = config_n2n lib k w errno in ((bit_or no_go rc, k'), w', n)
  ]

  -- The end of `ConfigProc`: an error of the stream is the code in place of `NoGo`.
  unfoldable pub finish_config : Handled S → W → ℤ → (ℤ × Settings) × W × ℤ
  unfolding set_dependent
  finish_config ((no_go, k), s) w errno =
      let ((no_go', k'), w', n) = set_dependent no_go k w errno in
      let retc = h.last_error s in ((if is_set retc then h.emsg retc else pos no_go', k'), w', n)

  unfoldable pub config_proc : ℕ → Option Bytes → Settings → W → ℤ → Option ((ℤ × Settings) × W × ℤ)
  unfolding read_records finish_config
  config_proc fuel none k w errno = some ((pos 1, k), w, errno)
  config_proc fuel (some []) k w errno = some ((pos 1, k), w, errno)
  config_proc fuel (some (c ∷ cfn)) k w errno =
      let (config, w1, n1) = h.open_config (c ∷ cfn) w errno in
      elim config [
        | none ↦ some ((pos 1, k), w1, n1)
        | some s ↦ elim (read_records fuel s (record k { config_fn = some (c ∷ cfn) }) 0) [
          | none ↦ none
          | some outcome ↦ some (finish_config outcome w1 n1)
        ]
      ]

  -- `Configure`, which `Init` calls after the same two resets.
  unfoldable pub configure : ℕ → Option Bytes → Settings → W → ℤ → Option ((ℤ × Settings) × W × ℤ)
  unfolding config_proc
  configure fuel cfn k w errno =
      config_proc fuel cfn (record k { n2n_lib = none; the_n2n = none }) w errno

  -- `Init`.
  unfoldable pub init_system : ℕ → Option Bytes → Settings → W → ℤ → Option ((ℤ × Settings) × W × ℤ)
  unfolding configure
  init_system fuel cfn k w errno =
      configure fuel cfn (record k { n2n_lib = none; the_n2n = none }) w errno

  -- `XrdOssGetStorageSystem` of the real plugin: whether `g_hdfs_oss` is set, which is also its result.
  unfoldable pub load_system :
      ℕ → Option Bytes → Settings → W → ℤ → Option ((Bool × Settings) × W × ℤ)
  unfolding init_system
  load_system fuel cfn k w errno = elim (init_system fuel cfn k w errno) [
    | none ↦ none
    | some ((no_go, k'), w', n) ↦ some ((not (is_set no_go), k'), w', n)
  ]

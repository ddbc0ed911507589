-- ===== src/Config/Tests.antt =====
-- Files with two directives.
use xrootd_hdfs.Base.{
  false, ℕ, suc, ℤ, pos, neg, Option, none, some, List, [], ◌∷◌, Bytes, ◌≡◌, refl, arith,
}
use xrootd_hdfs.Env.{codes, N2n}
use xrootd_hdfs.Config.{Settings, Host, set_dependent, configure, init_system, load_system}
use xrootd_hdfs.Config.Records.{Holds}
use xrootd_hdfs.Config.Directives.{Directive, named, last_namelib}
use xrootd_hdfs.Config.Settling.{starting, configure_lem, load_system-malformed}

-- The stream: the record that is being read, and the ones to come.
abbrev Stream : Type 0
Stream = Option Directive × List Directive

abbrev next_word : Stream → Option Bytes × Stream
next_word (cur, []) = (none, (none, []))
next_word (cur, d ∷ ds) = (some d.name, (some d, ds))

abbrev word_of : Stream → Option Bytes × Stream
word_of (none, ds) = (none, (none, ds))
word_of (some d, ds) = (d.word, (some d, ds))

abbrev rest_of : ℕ → Stream → Option Bytes × Stream
rest_of n (none, ds) = (none, (none, ds))
rest_of n (some d, ds) = (d.rest, (some d, ds))

abbrev n2n : N2n
n2n = λ path blen. (pos 0, path)

abbrev host : List Directive → Host ℕ Stream
host ds = record {
  open_config = λ cfn w e. (some (none, ds), suc w, e);
  get_my_first_word = next_word;
  get_word = word_of;
  get_rest = rest_of;
  last_error = λ s. pos 0;
  emsg = neg;
  get_plugin = λ lib w e. (some 7, suc w, e);
  get_name2name = λ f cfn parms w e. (some n2n, suc w, e);
}

abbrev fine : List Directive
fine =
    record { name = codes "all.role"; word = some (codes "server"); rest = some [] }
    ∷ record {
      name = codes "oss.namelib";
      word = some (codes "libn2n.so");
      rest = some (codes "-prefix");
    }
    ∷ []

-- A directive without a path.
abbrev bad : List Directive
bad =
    record { name = codes "oss.namelib"; word = none; rest = some [] }
    ∷ record { name = codes "oss.space"; word = none; rest = some [] }
    ∷ []

end_Holds : (ds : List Directive) (d : Directive) → Holds (host ds) (some d, []) []
unfolding Holds
end_Holds ds d = (refl, refl)

one_Holds : (all : List Directive) (d d' : Directive) → Holds (host all) (some d, d' ∷ []) (d' ∷ [])
unfolding Holds
one_Holds all d d' = (refl, refl, refl, end_Holds all d', end_Holds all d', end_Holds all d')

two_Holds : (d d' : Directive) → Holds (host (d ∷ d' ∷ [])) (none, d ∷ d' ∷ []) (d ∷ d' ∷ [])
unfolding Holds
two_Holds d d' =
    let all = d ∷ d' ∷ [] in
    (refl, refl, refl, one_Holds all d d', one_Holds all d d', one_Holds all d d')

abbrev settings : Settings
settings = record { n2n_lib = none; n2n_parms = none; config_fn = none; the_n2n = none }

abbrev cfn : Bytes
cfn = codes "/etc/xrootd.cf"

configure_lem_example :
    let loaded =
      set_dependent (host fine) 0 (named (starting cfn settings) (last_namelib fine)) 1 (pos 0) in
    configure (host fine) 3 (some cfn) settings 0 (pos 0)
    ≡ some ((pos loaded.0.0, loaded.0.1), loaded.1, loaded.2)
configure_lem_example =
    configure_lem (host fine) 3 b'/' (codes "etc/xrootd.cf") settings 0 (pos 0) (none, fine) fine
      refl (two_Holds _ _) (omega arith) refl

load_system-malformed_example :
    (k' : Settings) × (w' : ℕ) × (n : ℤ) × (init_system (host bad) 3 (some cfn) settings 0 (pos 0)
      ≡ some ((pos 1, k'), w', n))
    × (load_system (host bad) 3 (some cfn) settings 0 (pos 0) ≡ some ((false, k'), w', n))
load_system-malformed_example =
    load_system-malformed (host bad) 3 b'/' (codes "etc/xrootd.cf") settings 0 (pos 0) (none, bad)
      bad refl (two_Holds _ _) (omega arith) refl

-- ===== src/Plugin/Errors.antt =====
-- What an error report returns, and where the common opening of an operation ends.
use xrootd_hdfs.Base.{
  ℕ, ℤ, pos, is_neg, true, Option, some, ◌≡◌, ◌⊎◌, ◌↔◌, inl, inr, refl, sym, ap, ◌∙◌, Bytes,
  Option-cases, arith,
}
use xrootd_hdfs.Env.{Env, M, External, Client, enomem, eio}
use xrootd_hdfs.Plugin.{emsg, emsg_code, connect_client, get_real_path, with_connection}

-- An error report is never success: its code is negative whatever `errno` holds.
pub emsg_code_neg : (n : ℤ) → is_neg (emsg_code n) ≡ true
emsg_code_neg n = ground arith

pub emsg_neg : {W : Type 0} (c : ℤ) (e : Env W) → is_neg (emsg c e).0 ≡ true
unfolding emsg
emsg_neg c e = emsg_code_neg e.errno

neg_not_zero : (n : ℤ) → is_neg n ≡ true → ¬ (n ≡ pos 0)
neg_not_zero n h e = ground arith

module _ {W : Type 0} (x : External W) (path : Bytes) (client : Option Client) (e : Env W) where
  -- The path and the connection that an operation works with, and the state in which it does.
  pub record Connected (fs : ℕ) (p : Bytes) (e' : Env W) : Type 0 where
    pub between : Env W
    pub translated : get_real_path x path e ≡ (some p, between)
    pub connected : connect_client x client between ≡ (some fs, e')

  pub with_connection_cases :
      (body : ℕ → Bytes → M W ℤ)
      → (is_neg (with_connection x path client body e).0 ≡ true)
        ⊎ ((fs : ℕ) × (p : Bytes) × (e' : Env W) × Connected fs p e'
            × (with_connection x path client body e ≡ body fs p e'))
  unfolding with_connection
  with_connection_cases body = elim (Option-cases (get_real_path x path e).0) [
    | inl null ↦ inl (rw null (emsg_neg enomem (get_real_path x path e).1))
    | inr (p, hp) ↦
        let e1 = (get_real_path x path e).1 in
        let e2 = (connect_client x client e1).1 in
        elim (Option-cases (connect_client x client e1).0) [
          | inl null ↦ inl (rw (hp, null) (emsg_neg eio e2))
          | inr (fs, hf) ↦ inr (
            fs,
            p,
            e2,
            record {
              between = e1;
              translated = ap (λ r. (r, e1)) hp;
              connected = ap (λ r. (r, e2)) hf;
            },
            rw (hp, hf),
          )
        ]
  ]

  with_connection-Connected :
      (body : ℕ → Bytes → M W ℤ) {fs : ℕ} {p : Bytes} {e' : Env W}
      → Connected fs p e'
      → with_connection x path client body e ≡ body fs p e'
  unfolding with_connection
  with_connection-Connected body c = rw (c.translated, c.connected) refl

  -- The operation gets a path and a connection, and `P` holds of them.
  abbrev pub Reaches : (ℕ → Bytes → Env W → Type 0) → Type 0
  Reaches P = (fs : ℕ) × (p : Bytes) × (e' : Env W) × Connected fs p e' × P fs p e'

  -- An operation that opens in the common way succeeds exactly when it got a path and a connection and
  -- its body succeeds with them.
  pub with_connection_iff :
      (body : ℕ → Bytes → M W ℤ) (P : ℕ → Bytes → Env W → Type 0)
      → ((fs : ℕ) (p : Bytes) (e' : Env W) → ((body fs p e').0 ≡ pos 0) ↔ P fs p e')
      → ((with_connection x path client body e).0 ≡ pos 0) ↔ Reaches P
  with_connection_iff body P holds = (
    λ ok. elim (with_connection_cases body) [
      | inl bad ↦ absurd (neg_not_zero _ bad ok)
      | inr (fs, p, e', c, same) ↦ (fs, p, e', c, (holds fs p e').0 (sym (ap (λ r. r.0) same) ∙ ok))
    ],
    λ (fs, p, e', c, ok). ap (λ r. r.0) (with_connection-Connected body c) ∙ (holds fs p e').1 ok,
  )

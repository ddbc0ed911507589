-- ===== src/Checksum/Manager/Contents.antt =====
-- `GetFileContents` gives the whole checksum file.
use xrootd_hdfs.Base.{
  ℕ, zero, suc, ℤ, pos, ◌+◌, ◌-◌, ◌^◌, ◌≤◌, ◌<◌, Option, some, [], ◌∷◌, ◌++◌, Bytes, length, drop,
  slice, ◌≡◌, ◌≢◌, refl, sym, ap, ◌∙◌, arith, All, All-take, All-drop, nothing_left, split_block,
  length-slice, append-nil, append_assoc, on_some,
}
use xrootd_hdfs.Env.{Env, External}
use xrootd_hdfs.ReadAhead.{Done, Result, bytes, error, read}
use xrootd_hdfs.ReadAhead.Fill.{Serves, IsValid}
use xrootd_hdfs.ReadAhead.Exact.{read-IsExact}
use xrootd_hdfs.ReadAhead.Pieces.{Correct}
use xrootd_hdfs.ReadAhead.Reliable.{Reliable, Retried, read-Retried}
use xrootd_hdfs.ReadAhead.Spending.{Interrupts, Costs, Costs-le, read-Costs, shrinks}
use xrootd_hdfs.Checksum.State.{Digests, ChecksumState}
use xrootd_hdfs.Checksum.Entries.{until_nul}
use xrootd_hdfs.Checksum.Entries.RoundTrip.{NonNul-until_nul}
use xrootd_hdfs.File.{File, read_file}
use xrootd_hdfs.Checksum.Manager.{Loop, add_block, read_contents}

-- A text with no NUL.
abbrev pub NonNul : Bytes → Type 0
NonNul = All (λ c. c ≢ 0)

-- Bytes of a file with no NUL are taken whole.
until_nul-slice :
    (file : Bytes) (offset : ℕ) (s : Bytes)
    → NonNul file
    → s ≡ slice file offset (length s)
    → until_nul s ≡ s
until_nul-slice file offset s h p =
    ap until_nul p
    ∙ NonNul-until_nul (slice file offset (length s))
        (All-take (λ c. c ≢ 0) (length s) (drop offset file) (All-drop (λ c. c ≢ 0) offset file h))
    ∙ sym p

-- How the loop ends: with the whole text behind what was read before.
pub record Collects {W Ctx : Type 0} (text rest : Bytes) (kept : Option (ChecksumState Ctx))
    (l : Loop W Ctx) : Type 0 where
  pub code : l.retval ≡ pos 0
  pub all : l.text ≡ text ++ rest
  pub state : l.file.state ≡ kept

-- One more block in front of what the rest of the loop collects.
Collects-append :
    {W Ctx : Type 0} (text block more rest whole : Bytes) (kept : Option (ChecksumState Ctx))
    (l : Loop W Ctx)
    → more ≡ block
    → block ++ rest ≡ whole
    → Collects (text ++ more) rest kept l
    → Collects text whole kept l
Collects-append text block more rest whole kept l same split c = record {
  code = c.code;
  all =
      c.all
      ∙ ap (λ b. (text ++ b) ++ rest) same
      ∙ append_assoc text block rest
      ∙ ap (λ b. text ++ b) split;
  state = c.state;
}

module _ {W Ctx : Type 0} (file : Bytes) (plain : NonNul file) where
  add_block_lem :
      (again : ℕ → Bytes → Option (Loop W Ctx)) (stop : ℤ → Loop W Ctx) (offset : ℕ) (text : Bytes)
      (size before after rounds : ℕ) (kept : Option (ChecksumState Ctx)) (res : Result)
      → Correct file size offset 4095 res
      → Costs before after res
      → Retried res
      → ((rc : ℤ)
          → ((stop rc).retval ≡ rc) × ((stop rc).text ≡ text) × ((stop rc).file.state ≡ kept))
      → offset ≤ length file
      → length file - offset + before < suc rounds
      → ((offset' : ℕ) (text' : Bytes)
          → offset' ≤ length file
          → length file - offset' + after < rounds
          → (l : Loop W Ctx) × (again offset' text' ≡ some l)
            × Collects text' (drop offset' file) kept l)
      → (l : Loop W Ctx) × (add_block again stop offset text res ≡ some l)
        × Collects text (drop offset file) kept l
  add_block_lem again stop offset text size before after rounds kept (bytes []) correct costs
        retried stopped inside enough next =
      let (code, t, state) = stopped (pos 0) in
      let at_end = nothing_left 4095 (drop offset file) (omega arith) (correct.3 refl) in
      (
        stop (pos 0),
        refl,
        record {
          code = code;
          all = t ∙ sym (append-nil text) ∙ ap (λ r. text ++ r) (sym at_end);
          state = state;
        },
      )
  add_block_lem again stop offset text size before after rounds kept (bytes (c ∷ s)) correct costs
        retried stopped inside enough next =
      let block = c ∷ s in
      let in_file : length block ≤ length file - offset =
        omega (arith, ap length correct.0, length-slice file offset (length block)) in
      let (l, p, q) = next (offset + length block) (text ++ until_nul block) (omega arith) (
        shrinks (length file) offset (length block) before after rounds (omega arith) in_file costs
          enough) in
      (
        l,
        p,
        Collects-append text block (until_nul block) (drop (offset + length block) file)
            (drop offset file) kept l (until_nul-slice file offset block plain correct.0)
            (split_block file offset block (sym correct.0)) q,
      )
  add_block_lem again stop offset text size before after rounds kept (error rc) correct costs
        retried stopped inside enough next =
      rw (retried, add_block) (next offset text inside (omega (arith, costs.1 retried)))

module _ {W Ctx : Type 0} (x : External W) (d : Digests Ctx) (garbage fuel : ℕ) (file : Bytes)
    (budget : W → ℕ) (plain : NonNul file) (file_small : length file < 2 ^ 63) where
  read_contents_round :
      (rounds : ℕ) (f : File Ctx) (offset : ℕ) (text : Bytes) (e : Env W) (r : Done W)
      → read x f.fs f.fh fuel f.buf offset 4095 e ≡ some r
      → let f' = record f { buf = r.buf } in
        read_contents x d garbage fuel (suc rounds) f offset text e
        ≡ add_block
            (λ offset' text'. read_contents x d garbage fuel rounds f' offset' text' r.env)
            (λ retval. record { retval = retval; text = text; file = f'; env = r.env })
            offset
            text
            r.result
  unfolding read_contents read_file
  read_contents_round rounds f offset text e r p = rw (p, read_contents) refl

  pub read_contents_lem :
      (rounds : ℕ) (f : File Ctx) (offset : ℕ) (text : Bytes) (e : Env W)
      → Serves x f.fs f.fh file budget
      → Interrupts x f.fs f.fh budget
      → Reliable x f.fs f.fh
      → IsValid file f.buf
      → f.buf.size + budget e.world < fuel
      → offset ≤ length file
      → length file - offset + budget e.world < rounds
      → (l : Loop W Ctx) × (read_contents x d garbage fuel rounds f offset text e ≡ some l)
        × Collects text (drop offset file) f.state l
  read_contents_lem zero f offset text e sv it rel v enough inside more = absurd (omega arith)
  read_contents_lem (suc rounds) f offset text e sv it rel v enough inside more =
      let (r, p, exact) =
        read-IsExact x f.fs f.fh file budget f.buf offset 4095 fuel e sv v file_small (omega arith)
          (omega arith) enough in
      let costs =
        on_some (λ r. Costs (budget e.world) (budget r.env.world) r.result)
          (read x f.fs f.fh fuel f.buf offset 4095 e) r p
          (read-Costs x f.fs f.fh file budget sv it fuel f.buf offset 4095 e) in
      let retried =
        on_some (λ r. Retried r.result) (read x f.fs f.fh fuel f.buf offset 4095 e) r p
          (read-Retried x f.fs f.fh rel fuel f.buf offset 4095 e) in
      let spent : budget r.env.world ≤ budget e.world = Costs-le r.result costs in
      let (l, q, c) =
        add_block_lem file plain
          (λ offset' text'.
            read_contents x d garbage fuel rounds (record f { buf = r.buf }) offset' text' r.env)
          (λ retval. record {
            retval = retval;
            text = text;
            file = record f { buf = r.buf };
            env = r.env;
          })
          offset text f.buf.size (budget e.world) (budget r.env.world) rounds f.state r.result
          exact.correct costs retried (λ rc. (refl, refl, refl)) inside more
          (λ offset' text' inside' more'.
            read_contents_lem rounds (record f { buf = r.buf }) offset' text' r.env sv it rel
              exact.valid (omega (arith, exact.size, spent)) inside' more') in
      (l, read_contents_round rounds f offset text e r p ∙ q, c)

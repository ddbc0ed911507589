-- ===== src/File/Handles.antt =====
-- An `XrdHdfsFile` and the file that it holds open in HDFS.
pub mod Opened
pub mod Life
use xrootd_hdfs.Base.{
  ℕ, zero, suc, ℤ, pos, ◌+◌, ◌≤◌, ◌<◌, Bool, true, false, Option, none, some, Bytes, is_set, ◌≡◌,
  refl, sym, ap, ◌∙◌, inl, inr, arith, Bool-cases, Option-cases, OnSome, OnSome-weaken, on_some,
  ◌==◌,
}
use xrootd_hdfs.Env.{Env, External, Client}
use xrootd_hdfs.Plugin.{emsg, connect_client, get_real_path}
use xrootd_hdfs.Plugin.Handles.{held, Counts, Keeps, get_real_path-Keeps, connect_client-Keeps}
use xrootd_hdfs.ReadAhead.{ReadBuf, Done, read}
use xrootd_hdfs.ReadAhead.Handles.{read-kept}
use xrootd_hdfs.Checksum.State.{Digests, ChecksumState, finalize}
use xrootd_hdfs.File.{
  File, new_file, no_buffer, allocate, readbuf_bytes, open_connected, open_file, open_flag, write,
  fstat, close_handle, close, read_file,
}
use xrootd_hdfs.File.Ending.{destroy}

-- Of the files that are open, all but `others` are the object's; and an object with an open file has the
-- connection that its destructor asks for.
pub record Holds {W Ctx : Type 0} (count : W → ℕ) (others : ℕ) (f : File Ctx) (e : Env W)
    : Type 0 where
  pub counted : count e.world ≡ others + held f.fh
  pub linked : held f.fh ≤ held f.fs

-- A call of the checksum manager that leaves the number of open files.
abbrev pub Settles :
    {W Ctx : Type 0}
    → (W → ℕ)
    → (Option Bytes → ChecksumState Ctx → Env W → Option (ℤ × Env W))
    → Type 0
Settles {W} {Ctx} count set =
    (name : Option Bytes) (s : ChecksumState Ctx) (e : Env W)
    → OnSome (λ r. count r.1.world ≡ count e.world) (set name s e)

module _ {W Ctx : Type 0} (x : External W) (d : Digests Ctx) (count : W → ℕ)
    (counts : Counts x count) where
  pub read_file-Holds :
      (f : File Ctx) (fuel offset blen others : ℕ) (e : Env W)
      → Holds count others f e
      → OnSome {A = Done W × File Ctx}
          (λ r. Holds count others r.1 r.0.env)
          (read_file x d fuel f offset blen e)
  unfolding read_file
  read_file-Holds f fuel offset blen others e s =
      by_read (read x f.fs f.fh fuel f.buf offset blen e)
        (read-kept x count counts f.fs f.fh fuel f.buf offset blen e)
    where
      by_read :
          (o : Option (Done W))
          → OnSome (λ r. count r.env.world ≡ count e.world) o
          → OnSome {A = Done W × File Ctx}
              (λ r. Holds count others r.1 r.0.env)
              (elim o [ none ↦ none | some r ↦ some (r, record f { buf = r.buf }) ])
      by_read none k = tt
      by_read (some r) k = record { counted = k ∙ s.counted; linked = s.linked }

  pub write-Holds :
      (f : File Ctx) (buff : Bytes) (offset others : ℕ) (e : Env W)
      → Holds count others f e
      → let ((_, f'), e') = write x d f buff offset e in Holds count others f' e'
  unfolding write emsg
  write-Holds f buff offset others e s = elim (Bool-cases (offset == f.nextoff)) [
    | inr elsewhere ↦ rw elsewhere (record { counted = s.counted; linked = s.linked })
    | inl next ↦ rw next (record {
      counted = counts.write f.fs f.fh buff e.world e.errno ∙ s.counted;
      linked = s.linked;
    })
  ]

  -- `Close` gives the handle back, whatever `hdfsCloseFile` says.
  close_handle-kept :
      (f : File Ctx) (others : ℕ) (e : Env W)
      → Holds count others f e
      → count (close_handle x d f e).1.world ≡ others
  unfolding close_handle emsg
  close_handle-kept f others e s = elim (Option-cases f.fh) [
    | inl null ↦ rw null (omega (arith, s.counted, ap held null))
    | inr (h, opened) ↦
        let some_open : count e.world ≡ others + 1 = s.counted ∙ ap (λ o. others + held o) opened in
        let closed = counts.closes f.fs h e.world e.errno (omega (arith, some_open)) in
        elim (Bool-cases (is_set (x.close_file f.fs h e.world e.errno).0)) [
          | inl failed ↦ rw (opened, failed) (omega (arith, closed, some_open))
          | inr fine ↦ rw (opened, fine) (omega (arith, closed, some_open))
        ]
  ]

  pub close-Holds :
      (f : File Ctx) (set : Option Bytes → ChecksumState Ctx → Env W → Option (ℤ × Env W))
      (others : ℕ) (e : Env W)
      → Settles count set
      → Holds count others f e
      → OnSome {A = (ℤ × File Ctx) × Env W}
          (λ r. (r.0.1.fh ≡ none) × Holds count others r.0.1 r.1)
          (close x d set f e)
  unfolding close
  close-Holds f set others e settles s =
      let kept = close_handle-kept f others e s in
      let closed : count (close_handle x d f e).1.world ≡ others + 0 = omega (arith, kept) in
      elim (Option-cases f.state) [
        | inl none_left ↦
            rw (none_left, close) (refl, record { counted = closed; linked = omega arith })
        | inr (st, recorded) ↦ elim (Bool-cases (is_set (close_handle x d f e).0)) [
          | inl bad ↦
              rw (recorded, close, bad, close)
                (refl, record { counted = closed; linked = omega arith })
          | inr fine ↦ elim (Option-cases (set f.fname (finalize d st) (close_handle x d f e).1)) [
            | inl out ↦ rw (recorded, close, fine, close, out, close) tt
            | inr (r, done) ↦
                let same =
                  on_some (λ r. count r.1.world ≡ count (close_handle x d f e).1.world)
                    (set f.fname (finalize d st) (close_handle x d f e).1) r done
                    (settles f.fname (finalize d st) (close_handle x d f e).1) in
                rw (recorded, close, fine, close, done, close)
                  (refl, record { counted = same ∙ closed; linked = omega arith })
          ]
        ]
      ]

  -- The destructor gives back what the object still holds.
  pub destroy-Holds :
      (f : File Ctx) (others : ℕ) (e : Env W)
      → Holds count others f e
      → count (destroy x f e).1.world ≡ others
  unfolding destroy
  destroy-Holds f others e s = elim (Option-cases f.fs) [
    | inl null ↦
        let unheld : held f.fh ≡ 0 = omega (arith, s.linked, ap held null) in
        rw null (omega (arith, s.counted, unheld))
    | inr (g, connected) ↦ elim (Option-cases f.fh) [
      | inl unopened ↦ rw (connected, unopened) (omega (arith, s.counted, ap held unopened))
      | inr (h, opened) ↦
          let some_open : count e.world ≡ others + 1 =
            s.counted ∙ ap (λ o. others + held o) opened in
          let closed = counts.closes f.fs h e.world e.errno (omega (arith, some_open)) in
          rw (connected, opened)
            (omega (
              arith,
              ap (λ fs. count (x.close_file fs h e.world e.errno).1) connected,
              closed,
              some_open,
            ))
    ]
  ]

  pub fstat-Keeps : (f : File Ctx) → Keeps count (fstat x d f)
  unfolding fstat emsg
  fstat-Keeps f e =
      let (info, w, n) = x.path_info f.fs f.fname e.world e.errno in
      let kept = counts.path_info f.fs f.fname e.world e.errno in
      elim (Option-cases info) [ inl null ↦ rw null kept | inr (i, there) ↦ rw there kept ]

  -- Behind `Close` only the files of others are open.
  pub close-kept :
      (f : File Ctx) (set : Option Bytes → ChecksumState Ctx → Env W → Option (ℤ × Env W))
      (others : ℕ) (e : Env W)
      → Settles count set
      → Holds count others f e
      → OnSome {A = (ℤ × File Ctx) × Env W} (λ r. count r.1.world ≡ others) (close x d set f e)
  close-kept f set others e settles s =
      OnSome-weaken {A = (ℤ × File Ctx) × Env W}
        (λ r. (r.0.1.fh ≡ none) × Holds count others r.0.1 r.1) (λ r. count r.1.world ≡ others)
        (close x d set f e) (λ r h. omega (arith, h.1.counted, ap held h.0))
        (close-Holds f set others e settles s)

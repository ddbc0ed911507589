-- ===== src/File/Handles/Life.antt =====
-- The life of an `XrdHdfsFile`, from its constructor to its destructor, and the files that are open.
mod Tests
use xrootd_hdfs.Base.{ℕ, ℤ, ◌+◌, Option, none, some, Bytes, ◌≡◌, refl, ◌∙◌, arith, on_some}
use xrootd_hdfs.Env.{Env, External, Client}
use xrootd_hdfs.Plugin.Handles.{held, Counts}
use xrootd_hdfs.ReadAhead.{Done}
use xrootd_hdfs.Checksum.State.{Digests, ChecksumState}
use xrootd_hdfs.File.{File, new_file, open_file, write, fstat, close, read_file}
use xrootd_hdfs.File.Ending.{destroy}
use xrootd_hdfs.File.Handles.{
  Holds, Settles, read_file-Holds, write-Holds, close-Holds, destroy-Holds, fstat-Keeps,
}
use xrootd_hdfs.File.Handles.Opened.{open_file-Holds}

module _ {W Ctx : Type 0} (x : External W) (d : Digests Ctx) (count : W → ℕ)
    (counts : Counts x count) where
  -- One call on the object, or what others do meanwhile, which leaves the number of open files.
  pub data Call : File Ctx → Env W → File Ctx → Env W → Type 0 where
    opens :
        (f : File Ctx) (path : Bytes) (mode : ℕ) (client : Client) (garbage : ℕ) (e : Env W)
        → Call f e
            (open_file x d f path mode client garbage e).0.1
            (open_file x d f path mode client garbage e).1
    reads :
        (f f' : File Ctx) (fuel offset blen : ℕ) (e : Env W) (r : Done W)
        → read_file x d fuel f offset blen e ≡ some (r, f')
        → Call f e f' r.env
    writes :
        (f : File Ctx) (buff : Bytes) (offset : ℕ) (e : Env W)
        → Call f e (write x d f buff offset e).0.1 (write x d f buff offset e).1
    stats : (f : File Ctx) (e : Env W) → Call f e f (fstat x d f e).1
    closes :
        (f f' : File Ctx) (set : Option Bytes → ChecksumState Ctx → Env W → Option (ℤ × Env W))
        (e e' : Env W) (rc : ℤ)
        → Settles count set
        → close x d set f e ≡ some ((rc, f'), e')
        → Call f e f' e'
    meanwhile : (f : File Ctx) (e e' : Env W) → count e'.world ≡ count e.world → Call f e f e'

  pub data Calls (f : File Ctx) (e : Env W) : File Ctx → Env W → Type 0 where
    here : Calls f e f e
    further :
        {f' f'' : File Ctx} {e' e'' : Env W}
        → Calls f e f' e'
        → Call f' e' f'' e''
        → Calls f e f'' e''

  Call-Holds :
      {f : File Ctx} {e : Env W} {f' : File Ctx} {e' : Env W} (others : ℕ)
      → Call f e f' e'
      → Holds count others f e
      → Holds count others f' e'
  Call-Holds others (opens f path mode client garbage e) s =
      open_file-Holds x d count counts f path mode client garbage others e s
  Call-Holds others (reads f f' fuel offset blen e r p) s =
      on_some (λ r. Holds count others r.1 r.0.env) (read_file x d fuel f offset blen e) (r, f') p
        (read_file-Holds x d count counts f fuel offset blen others e s)
  Call-Holds others (writes f buff offset e) s =
      write-Holds x d count counts f buff offset others e s
  Call-Holds others (stats f e) s = record {
    counted = fstat-Keeps x d count counts f e ∙ s.counted;
    linked = s.linked;
  }
  Call-Holds others (closes f f' set e e' rc settles p) s =
      (on_some (λ r. (r.0.1.fh ≡ none) × Holds count others r.0.1 r.1) (close x d set f e)
        ((rc, f'), e') p (close-Holds x d count counts f set others e settles s)).1
  Call-Holds others (meanwhile f e e' same) s = record {
    counted = same ∙ s.counted;
    linked = s.linked;
  }

  Calls-Holds :
      {e : Env W} {f : File Ctx} {e' : Env W}
      → Calls new_file e f e'
      → Holds count (count e.world) f e'
  Calls-Holds here = record { counted = omega arith; linked = omega arith }
  Calls-Holds (further calls c) = Call-Holds _ c (Calls-Holds calls)

  -- However `Open`, `Read`, `Write`, `Fstat` and `Close` are called on a new object, in any order, with
  -- failures at any call, and with calls of others in between that leave the number of open files: at any
  -- time the object holds open at most the one file of its handle, and behind its destructor there are as
  -- many open files in HDFS as before it was made. The checksum manager's `Set`, which `Close` calls,
  -- leaves the number of open files.
  pub Calls-destroy :
      {f : File Ctx} {e e' : Env W}
      → Calls new_file e f e'
      → (count e'.world ≡ count e.world + held f.fh)
        × (count (destroy x f e').1.world ≡ count e.world)
  Calls-destroy {f} {e} {e'} calls =
      let s = Calls-Holds calls in
      (s.counted, destroy-Holds x d count counts f (count e.world) e' s)

-- ===== src/File/Lifecycle.antt =====
-- The life of an `XrdHdfsFile`: `Open`, `Read`, `Write` and `Close` in any order, in any environment.
use xrootd_hdfs.Base.{on_some, ℕ, ℤ, Option, some, Bytes, ◌≡◌, refl, arith}
use xrootd_hdfs.Env.{Env, External, Client}
use xrootd_hdfs.ReadAhead.{Done}
use xrootd_hdfs.ReadAhead.Sizes.{Bounded}
use xrootd_hdfs.Checksum.State.{Digests, ChecksumState}
use xrootd_hdfs.File.{File, new_file, open_file, write, close, read_file}
use xrootd_hdfs.File.Soundness.{
  IsSound, read_file-IsSound, write-IsSound, open_file-IsSound, close-IsSound,
}

module _ {W Ctx : Type 0} (x : External W) (d : Digests Ctx) where
  -- One call on the object. `Fstat` does not change it.
  pub data Step : File Ctx → File Ctx → Type 0 where
    opens :
        (f : File Ctx) (path : Bytes) (mode : ℕ) (client : Client) (garbage : ℕ) (e : Env W)
        → Step f (open_file x d f path mode client garbage e).0.1
    reads :
        (f f' : File Ctx) (fuel offset blen : ℕ) (e : Env W) (r : Done W)
        → read_file x d fuel f offset blen e ≡ some (r, f')
        → Step f f'
    writes :
        (f : File Ctx) (buff : Bytes) (offset : ℕ) (e : Env W)
        → Step f (write x d f buff offset e).0.1
    closes :
        (f f' : File Ctx) (set : Option Bytes → ChecksumState Ctx → Env W → Option (ℤ × Env W))
        (e e' : Env W) (rc : ℤ)
        → close x d set f e ≡ some ((rc, f'), e')
        → Step f f'

  pub data Reach (f : File Ctx) : File Ctx → Type 0 where
    here : Reach f f
    further : {f' f'' : File Ctx} → Reach f f' → Step f' f'' → Reach f f''

  Step-IsSound : {f f' : File Ctx} → Bounded x → Step f f' → IsSound f → IsSound f'
  Step-IsSound bounded (opens f path mode client garbage e) s =
      open_file-IsSound x d f path mode client garbage e s
  Step-IsSound bounded (reads f f' fuel offset blen e r p) s =
      on_some (λ r. IsSound r.1) (read_file x d fuel f offset blen e) (r, f') p
        (read_file-IsSound x d f fuel offset blen e bounded s)
  Step-IsSound bounded (writes f buff offset e) s = write-IsSound x d f buff offset e s
  Step-IsSound bounded (closes f f' set e e' rc p) s =
      on_some (λ r. IsSound r.0.1) (close x d set f e) ((rc, f'), e') p
        (close-IsSound x d f set e s)

  new_file-IsSound : IsSound (new_file {Ctx = Ctx})
  new_file-IsSound = record {
    sized = record { allocated = refl; small = omega arith };
    closed = λ _. refl;
    open_chunk = tt;
  }

  -- However `Open`, `Read`, `Write` and `Close` are called on a new object, in any order, in any
  -- environment and with failures at any call: the memory of its read-ahead buffer has the size that the
  -- object knows, it has no checksums while it has no open file, and its checksums have less than a chunk
  -- open. `hdfsPread` gives no more bytes than it is asked for.
  pub Reach-IsSound : {f : File Ctx} → Bounded x → Reach new_file f → IsSound f
  Reach-IsSound bounded here = new_file-IsSound
  Reach-IsSound bounded (further r s) = Step-IsSound bounded s (Reach-IsSound bounded r)

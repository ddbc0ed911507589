-- ===== src/Checksum/Manager/Calc/Agrees.antt =====
-- `Calc` and `Write` sum up the same file, and what `Ver` does without a recorded checksum.
use xrootd_hdfs.Base.{
  ℕ, ℤ, pos, neg, ◌+◌, ◌-◌, ◌<◌, Option, none, some, List, [], ◌∷◌, ◌++◌, Bytes, Bool, true, length,
  is_set, is_neg, ◌≡◌, ◌⊎◌, inl, inr, refl, sym, ap, ◌∙◌, arith,
}
use xrootd_hdfs.Env.{Env, External, enotsup}
use xrootd_hdfs.ReadAhead.Fill.{Serves}
use xrootd_hdfs.Checksum.State.{Digests, ChecksumState, update, cvmfs_chunk_size}
use xrootd_hdfs.Checksum.State.Chunks.{Streams}
use xrootd_hdfs.File.{File}
use xrootd_hdfs.File.Writes.{write_all, flatten, WritesAll, write_all_lem}
use xrootd_hdfs.Checksum.Manager.{get}
use xrootd_hdfs.Checksum.Manager.Calc.{Computed, compute, read_size, return_digest, calc, ver}
use xrootd_hdfs.ReadAhead.Spending.{Interrupts}
use xrootd_hdfs.Checksum.Manager.Calc.Whole.{sum_up, SumsUp, compute_lem}

module _ {W Ctx : Type 0} (x : External W) (d : Digests Ctx) where
  sum_up_some :
      (s : ChecksumState Ctx) (text : Bytes) → 0 < length text → sum_up d s text ≡ update d s text
  unfolding sum_up
  sum_up_some s [] h = absurd (omega arith)
  sum_up_some s (c ∷ text) h = refl

  -- Either way round, the state is that of one `Update` with all bytes.
  same_sum :
      {Q : Option (ChecksumState Ctx)} (s : ChecksumState Ctx) (text : Bytes) (c : Computed W Ctx)
      → 0 < length text
      → Q ≡ some (update d s text)
      → SumsUp d s text c
      → (is_neg c.retval ≡ true) ⊎ ((c.retval ≡ pos 0) × (Q ≡ some c.state))
  same_sum s text c some_text q (inl bad) = inl bad
  same_sum s text c some_text q (inr (done, sum)) =
      inr (done, q ∙ ap some (sym (sum ∙ sum_up_some s text some_text)))

  -- The checksums that `Write` keeps of a file, written in buffers of any sizes, are those that `Calc`
  -- computes of it afterwards from the same start, in blocks of any sizes: the loop of `Calc` ends, with
  -- a negative code or with the writer's state. HDFS takes every write whole and gives back what was
  -- written, which is some byte.
  pub compute-write_all :
      (garbage fuel rounds : ℕ) (writer reader : File Ctx) (buff : Bytes) (buffs : List Bytes)
      (s : ChecksumState Ctx) (budget : W → ℕ) (e e' : Env W)
      → Streams d
      → WritesAll x d writer
      → writer.state ≡ some s
      → s.cur_chunk_bytes < cvmfs_chunk_size
      → 0 < length (buff ++ flatten buffs)
      → Serves x reader.fs reader.fh (buff ++ flatten buffs) budget
      → Interrupts x reader.fs reader.fh budget
      → reader.buf.size < read_size
      → length (buff ++ flatten buffs) - 0 + budget e'.world < rounds
      → (c : Computed W Ctx) × (compute x d garbage fuel rounds reader 0 s e' ≡ some c)
        × ((is_neg c.retval ≡ true)
            ⊎ ((c.retval ≡ pos 0)
                × ((write_all x d writer (buff ∷ buffs) e).0.state ≡ some c.state)))
  compute-write_all garbage fuel rounds writer reader buff buffs s budget e e' streams takes st
        open_bytes some_text sv it small enough =
      let text = buff ++ flatten buffs in
      let (_, written) = write_all_lem x d writer buff buffs s e streams takes st open_bytes in
      let (c, p, q) =
        compute_lem x d garbage fuel text budget streams rounds reader 0 s e' sv it small open_bytes
          enough in
      (c, p, same_sum s text c some_text written q)

  ver-calc :
      (garbage fuel depth valu_size n : ℕ) (loaded : Bool) (default on_disk wanted pfn : Bytes)
      (to_value : Option Bytes → Bytes) (e e1 e2 : Env W) (rc rc' : ℤ) (text text' : Option Bytes)
      → get x d garbage fuel depth loaded valu_size default (some on_disk) pfn e
        ≡ some ((rc, text), e1)
      → is_set rc ≡ true
      → calc x d garbage fuel depth loaded true on_disk pfn e1 ≡ some ((rc', text'), e2)
      → is_set rc' ≡ true
      → ver x d garbage fuel depth loaded valu_size default on_disk to_value wanted n pfn e
        ≡ some (rc', e2)
  unfolding ver
  ver-calc garbage fuel depth valu_size n loaded default on_disk wanted pfn to_value e e1 e2 rc rc'
        text text' p set q set' =
      rw (p, ver, set, ver, q, ver, set') refl

  -- `Ver` asks for the checksum with the record `cks_on_disk`, whose name is empty, as its constructor
  -- makes it. If `Get` does not find it, then `Ver` gives ENOTSUP: `Calc` knows no digest with that name.
  pub ver_unnamed :
      (garbage fuel depth valu_size n : ℕ) (loaded : Bool) (default wanted pfn : Bytes)
      (to_value : Option Bytes → Bytes) (e e1 : Env W) (rc : ℤ) (text : Option Bytes)
      → get x d garbage fuel depth loaded valu_size default (some []) pfn e ≡ some ((rc, text), e1)
      → is_set rc ≡ true
      → ver x d garbage fuel depth loaded valu_size default [] to_value wanted n pfn e
        ≡ some (neg enotsup, e1)
  ver_unnamed garbage fuel depth valu_size n loaded default wanted pfn to_value e e1 rc text p set =
      ver-calc garbage fuel depth valu_size n loaded default [] wanted pfn to_value e e1 e1 rc
        (neg enotsup) text none p set refused refl
    where
      refused : calc x d garbage fuel depth loaded true [] pfn e1 ≡ some ((neg enotsup, none), e1)
      refused = unfold calc return_digest in refl

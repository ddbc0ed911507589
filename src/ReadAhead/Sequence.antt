-- ===== src/ReadAhead/Sequence.antt =====
-- A client that reads through the buffer again and again sees a file with no buffer at all.
use xrootd_hdfs.Base.{
  ℕ, ◌+◌, ◌^◌, ◌≤◌, ◌<◌, Option, none, some, List, [], ◌∷◌, Bytes, length, ◌≡◌, refl, ap, ◌∙◌,
  arith, All,
}
use xrootd_hdfs.Env.{Env, External}
use xrootd_hdfs.ReadAhead.{ReadBuf, Done, Result, read}
use xrootd_hdfs.ReadAhead.Fill.{Serves, IsValid}
use xrootd_hdfs.ReadAhead.Exact.{read-IsExact}
use xrootd_hdfs.ReadAhead.Pieces.{Correct}

-- A request: an offset and a length.
abbrev pub Request : Type 0
Request = ℕ × ℕ

abbrev pub IsSmall : Request → Type 0
IsSmall (offset, blen) = (offset < 2 ^ 63) × (blen < 2 ^ 64)

-- The file without a buffer: a step answers one request from the file alone, and nothing of one step is
-- kept for the next.
pub data Served (file : Bytes) (size : ℕ) : List Request → List Result → Type 0 where
  done : Served file size [] []
  next :
      {offset blen : ℕ} {requests : List Request} {r : Result} {results : List Result}
      → Correct file size offset blen r
      → Served file size requests results
      → Served file size ((offset, blen) ∷ requests) (r ∷ results)

abbrev pub Answered : Type 0
Answered = List Result × ReadBuf

-- The results of the requests behind one.
cons_result : Result → Option Answered → Option Answered
cons_result r none = none
cons_result r (some (results, b)) = some (r ∷ results, b)

module _ {W : Type 0} (x : External W) (fs fh : Option ℕ) (fuel : ℕ) where
  and_then : (ReadBuf → Env W → Option Answered) → Option (Done W) → Option Answered
  and_then again none = none
  and_then again (some d) = cons_result d.result (again d.buf d.env)

  -- One call of `Read` behind the other, on one open file.
  pub read_all : List Request → ReadBuf → Env W → Option Answered
  unfolding and_then
  read_all [] b e = some ([], b)
  read_all ((offset, blen) ∷ requests) b e =
      and_then (read_all requests) (read x fs fh fuel b offset blen e)

  -- `Read` refines the file without a buffer: a sequence of calls at any offsets, with one buffer that
  -- each leaves to the next, ends, and its results are those that the file alone may give to the same
  -- requests, each a correct answer or an error. The buffer is valid at the start and at the end; fuel is
  -- given for each byte of the buffer and the interruptions of a call, which are bounded.
  pub read_all-Served :
      (file : Bytes) (budget : W → ℕ) (bound : ℕ) (requests : List Request) (b : ReadBuf)
      (e : Env W)
      → Serves x fs fh file budget
      → ((w : W) → budget w ≤ bound)
      → b.size + bound < fuel
      → length file < 2 ^ 63
      → All IsSmall requests
      → IsValid file b
      → (results : List Result) × (b' : ReadBuf) × (read_all requests b e ≡ some (results, b'))
        × Served file b.size requests results
        × IsValid file b'
  unfolding read_all and_then cons_result
  read_all-Served file budget bound [] b e sv bounded enough small reqs v = ([], b, refl, done, v)
  read_all-Served file budget bound ((offset, blen) ∷ requests) b e sv bounded enough small reqs v =
      let (d, p, exact) =
        read-IsExact x fs fh file budget b offset blen fuel e sv v small reqs.0.0 reqs.0.1
          (omega (arith, bounded e.world)) in
      let (results, b', q, served, v') =
        read_all-Served file budget bound requests d.buf d.env sv bounded
          (omega (arith, exact.size)) small reqs.1 exact.valid in
      (
        d.result ∷ results,
        b',
        ap (and_then (read_all requests)) p ∙ ap (cons_result d.result) q,
        next exact.correct (same_size exact.size served),
        v',
      )
    where
      same_size :
          {m n : ℕ} {results : List Result}
          → m ≡ n
          → Served file m requests results
          → Served file n requests results
      same_size p s = rw (← p) s

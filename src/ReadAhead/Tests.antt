-- ===== src/ReadAhead/Tests.antt =====
-- Reads through a small buffer, with interrupted calls.
use xrootd_hdfs.Base.{ℕ, Option, none, some, List, [], ◌∷◌, slice, ◌≡◌, inl, refl, arith}
use xrootd_hdfs.Env.{External, got, codes}
use xrootd_hdfs.ReadAhead.{ReadBuf, Done, Result, bytes, read, fill, Filled}
use xrootd_hdfs.ReadAhead.Fill.{Serves, IsValid, Settled, fill-Settled}
use xrootd_hdfs.ReadAhead.Exact.{IsExact, read-IsExact}
use xrootd_hdfs.ReadAhead.Sequence.{Request, Served, read_all, read_all-Served}
use xrootd_hdfs.Sample.{content, sample, slice-Answers, sample-Serves, env}

-- An empty buffer of five bytes.
abbrev buffer : ReadBuf
buffer = record {
  mem = some (codes ".....");
  size = 5;
  offset = 0;
  len = 0;
  bypassed = 0;
  misses = 0;
  hits = 0;
  partial_hits = 0;
  bytes_used = 0;
  bytes_loaded = 0;
}

buffer-IsValid : IsValid content buffer
buffer-IsValid = record {
  allocated = refl;
  small = omega arith;
  fits = omega arith;
  held = refl;
  in_file = inl refl;
}

-- Four bytes from offset 3, behind two interruptions.
abbrev result_of : Option (Done ℕ) → Option Result
result_of none = none
result_of (some d) = some d.result

read_greeting :
    result_of (read sample (some 7) (some 3) 9 buffer 3 4 env) ≡ some (bytes (codes "lo, "))
unfolding read
read_greeting = refl

read-IsExact_example :
    (d : Done ℕ) × (read sample (some 7) (some 3) 9 buffer 3 4 env ≡ some d)
    × IsExact content buffer 3 4 d
read-IsExact_example =
    read-IsExact sample (some 7) (some 3) content (λ w. w) buffer 3 4 9 env
      (sample-Serves (some 7) (some 3)) buffer-IsValid (omega arith) (omega arith) (omega arith)
      (omega arith)

fill-Settled_example :
    (f : Filled ℕ) × (fill sample (some 7) (some 3) 9 0 buffer env ≡ some f)
    × Settled content buffer f
fill-Settled_example =
    fill-Settled sample (some 7) (some 3) content (λ w. w) 9 buffer env
      (sample-Serves (some 7) (some 3)) buffer-IsValid (omega arith)

-- A file that is served without interruptions.
abbrev steady : External ℕ
steady = record sample { pread = λ fs fh off len w n. (got (slice content off len), w, n) }

steady-Serves : Serves steady (some 7) (some 3) content (λ w. 0)
steady-Serves = record {
  answers = λ w n off len. slice-Answers content (slice content off len) off len n refl;
  spends = λ w n off len. omega arith;
}

-- A request inside the buffer that the first one fills, and one that is larger than it.
abbrev requests : List Request
requests = (3, 4) ∷ (4, 2) ∷ (0, 9) ∷ []

read_all-Served_example :
    (results : List Result) × (b' : ReadBuf) × (read_all steady
        (some 7)
        (some 3)
        9
        requests
        buffer
        env
      ≡ some (results, b'))
    × Served content 5 requests results
    × IsValid content b'
read_all-Served_example =
    read_all-Served steady (some 7) (some 3) 9 content (λ w. 0) 1 requests buffer env steady-Serves
      (λ w. omega arith) (omega arith) (omega arith)
      ((omega arith, omega arith), ((omega arith, omega arith), ((omega arith, omega arith), tt)))
      buffer-IsValid

-- ===== src/Sample.antt =====
-- A small world for the tests: a file with a fixed content, an HDFS that interrupts some reads and takes
-- every write, and digests that collect their bytes. The world is the number of interruptions to come.
use xrootd_hdfs.Base.{
  ℕ, zero, suc, ◌+◌, ◌-◌, ◌%◌, ℤ, pos, negsuc, true, Option, none, some, [], ◌∷◌, ◌++◌, Bytes,
  length, slice, length-slice, append_assoc, take-length, drop, ◌≡◌, refl, sym, ap, ◌∙◌, arith,
}
use xrootd_hdfs.Env.{Env, External, Pread, got, failed, file, FileInfo, codes, eintr, Client}
use xrootd_hdfs.Plugin.Handles.{Counts}
use xrootd_hdfs.ReadAhead.Reliable.{Quiet, Reliable}
use xrootd_hdfs.ReadAhead.Spending.{Leaves, Interrupts}
use xrootd_hdfs.ReadAhead.Fill.{Answers, Spends, Serves}
use xrootd_hdfs.Checksum.State.{Digests}
use xrootd_hdfs.Checksum.State.Chunks.{Streams}

abbrev pub content : Bytes
content = codes "hello, world"

-- A read, which is interrupted as often as the world says.
abbrev pub serve : Option ℕ → Option ℕ → ℕ → ℕ → ℕ → ℤ → Pread × ℕ × ℤ
serve fs fh off len (suc w) n = (failed, w, eintr)
serve fs fh off len zero n = (got (slice content off len), zero, n)

abbrev pub sample_info : FileInfo
sample_info = record {
  kind = file;
  name = codes "/data/greeting";
  last_mod = pos 1000;
  size = 12;
  permissions = 0o644;
}

abbrev pub sample : External ℕ
sample = record {
  alloc = λ n w e. (true, w, e);
  connect_as = λ inst port user w e. (some 7, w, e);
  open_file = λ fs path flag w e. (some 3, w, e);
  close_file = λ fs fh w e. (pos 0, w, e);
  pread = serve;
  write = λ fs fh s w e. (pos (length s), w, e);
  path_info = λ fs path w e. (some sample_info, w, e);
  list_directory = λ fs path w e. (record { entries = some (sample_info ∷ []); count = 1 }, w, e);
  chmod = λ fs path mode w e. (pos 0, w, e);
  create_directory = λ fs path w e. (pos 0, w, e);
  delete = λ fs path w e. (pos 0, w, e);
  rename = λ fs src dest w e. (pos 0, w, e);
  exists = λ fs path w e. (pos 0, w, e);
}

-- The same for any file, without interruptions. The world is the number of open files.
abbrev pub counting : Bytes → External ℕ
counting whole = record sample {
  pread = λ fs fh off len w e. (got (slice whole off len), w, e);
  open_file = λ fs path flag w e. (some 3, w + 1, e);
  close_file = λ fs h w e. (pos 0, w - 1, e);
}

pub counting-Counts : (whole : Bytes) → Counts (counting whole) (λ w. w)
counting-Counts whole = record {
  alloc = λ n w e. refl;
  connect_as = λ inst port user w e. refl;
  pread = λ fs fh off len w e. refl;
  write = λ fs fh s w e. refl;
  path_info = λ fs path w e. refl;
  delete = λ fs path w e. refl;
  exists = λ fs path w e. refl;
  chmod = λ fs path mode w e. refl;
  opens = λ fs path flag w e. refl;
  closes = λ fs h w e some_open. omega arith;
}

-- The sample, but every write fails with EIO.
abbrev pub refusing : External ℕ
refusing = record sample { write = λ fs fh s w e. (negsuc 0, w, pos 5) }

abbrev pub env : Env ℕ
env = record { world = 2; errno = pos 0; einfo = pos 0; fs_map = []; cmsd_fs = none; n2n = none }

abbrev pub client : Option Client
client = some (record { sec = some (record { request_name = none; name = some (codes "alice") }) })

slice-length :
    (whole : Bytes) (off len : ℕ)
    → slice whole off (length (slice whole off len)) ≡ slice whole off len
slice-length whole off len = take-length len (drop off whole)

-- A call that gives all that is asked for and there.
pub slice-Answers :
    (whole s : Bytes) (off len : ℕ) (n : ℤ)
    → s ≡ slice whole off len
    → Answers whole off len (got s) n
slice-Answers whole [] off len n p = λ _. sym p
slice-Answers whole (c ∷ s) off len n p = (
  omega (arith, ap length p, length-slice whole off len),
  ap (λ t. slice whole off (length t)) p ∙ slice-length whole off len ∙ sym p,
)

pub sample-Serves : (fs fh : Option ℕ) → Serves sample fs fh content (λ w. w)
sample-Serves fs fh = record { answers = answers; spends = spends }
  where
    answers :
        (w : ℕ) (n : ℤ) (off len : ℕ)
        → let (r, _, n') = serve fs fh off len w n in Answers content off len r n'
    answers (suc w) n off len = tt
    answers zero n off len = slice-Answers content (slice content off len) off len n refl

    spends :
        (w : ℕ) (n : ℤ) (off len : ℕ)
        → let (r, w', n') = serve fs fh off len w n in Spends w w' r n'
    spends (suc w) n off len = (omega arith, λ _. omega arith)
    spends zero n off len = omega arith

pub some_Leaves : (s : Bytes) (w : ℕ) → Leaves w w (got s) (pos 0)
some_Leaves [] w = λ h. absurd (ground arith)
some_Leaves (c ∷ s) w = omega arith

pub sample-Interrupts : (fs fh : Option ℕ) → Interrupts sample fs fh (λ w. w)
sample-Interrupts fs fh = record { leaves = leaves }
  where
    leaves : (w off len : ℕ) → let (r, w', n') = serve fs fh off len w (pos 0) in Leaves w w' r n'
    leaves (suc w) off len = λ _. omega arith
    leaves zero off len = some_Leaves (slice content off len) 0

-- A sum of the bytes, in place of zlib's checksums.
abbrev pub sum_bytes : ℕ → Bytes → ℕ
sum_bytes n [] = n
sum_bytes n (c ∷ s) = sum_bytes ((n + c) % 65521) s

sum_bytes-append : (n : ℕ) (a b : Bytes) → sum_bytes (sum_bytes n a) b ≡ sum_bytes n (a ++ b)
sum_bytes-append n [] b = refl
sum_bytes-append n (c ∷ a) b = sum_bytes-append ((n + c) % 65521) a b

abbrev pub digests : Digests Bytes
digests = record {
  adler32 = sum_bytes;
  adler32_init = 1;
  crc32 = sum_bytes;
  md5_init = [];
  sha1_init = [];
  digest_update = λ c s. c ++ s;
  digest_final = λ c. c;
}

pub digests-Streams : Streams digests
digests-Streams = record {
  adler32 = sum_bytes-append;
  crc32 = sum_bytes-append;
  digest = append_assoc;
}

-- A read of the sample fails only where it is interrupted.
serve-Quiet :
    (fs fh : Option ℕ) (w off len : ℕ) → let r = serve fs fh off len w (pos 0) in Quiet r.0 r.2
serve-Quiet fs fh (suc w) off len = refl
serve-Quiet fs fh zero off len = slice-Quiet (slice content off len)
  where
    slice-Quiet : (s : Bytes) → Quiet (got s) (pos 0)
    slice-Quiet [] = refl
    slice-Quiet (c ∷ s) = tt

pub sample-Reliable : (fs fh : Option ℕ) → Reliable sample fs fh
sample-Reliable fs fh = record { quiet = serve-Quiet fs fh }

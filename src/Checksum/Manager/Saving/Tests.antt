-- ===== src/Checksum/Manager/Saving/Tests.antt =====
-- A checksum file that is written and read back, on a file system with one file.
use xrootd_hdfs.Base.{
  ℕ, ℤ, pos, Option, none, some, List, [], ◌∷◌, ◌++◌, Bytes, true, length, sym, take, take-length,
  length-take, slice, ◌≡◌, refl, ap, arith, All, if◌then◌else◌,
}
use mathlib.Core.Path.{subst}
use xrootd_hdfs.Env.{Env, External, codes, got}
use xrootd_hdfs.Plugin.{get_real_path, connect_client, extract_auth_name}
use xrootd_hdfs.Checksum.Entries.{ChecksumValue, render}
use xrootd_hdfs.Checksum.Entries.RoundTrip.{IsEntry}
use xrootd_hdfs.ReadAhead.{read}
use xrootd_hdfs.ReadAhead.Fill.{Serves}
use xrootd_hdfs.ReadAhead.Reliable.{Quiet, Reliable}
use xrootd_hdfs.ReadAhead.Spending.{Interrupts}
use xrootd_hdfs.File.{open_file, is_cksums}
use xrootd_hdfs.Checksum.Manager.{
  get_checksum_filename, set_multiple, get_file_contents, get, find_value, requested_name,
}
use xrootd_hdfs.Checksum.Manager.Lookup.{found_reply}
use xrootd_hdfs.Checksum.Manager.Writing.{Writer}
use xrootd_hdfs.Checksum.Manager.Reading.{get-found_reply}
use xrootd_hdfs.Checksum.Manager.Setting.{set_cks}
use xrootd_hdfs.Checksum.Manager.Setting.Written.{holds, set_cks_lem}
use xrootd_hdfs.Text.{eq_ignoring_case}
use xrootd_hdfs.Checksum.Manager.Saving.{Saved, set_multiple_lem, get-set_multiple}
use xrootd_hdfs.Sample.{sample_info, digests, slice-Answers, some_Leaves}

abbrev values : List ChecksumValue
values =
    record { first = codes "Adler32"; second = codes "1a2b3c4d" }
    ∷ record { first = codes "md5"; second = codes "00ff" }
    ∷ []

values-IsEntry : All IsEntry values
values-IsEntry = (
  record { name = ground arith; value = ground arith; some_value = λ e. cc },
  (record { name = ground arith; value = ground arith; some_value = λ e. cc }, tt),
)

-- The file as it is to be written.
abbrev text : Bytes
text = codes "ADLER32:1a2b3c4d\nMD5:00ff\n"

render-text : render values ≡ text
unfolding render
render-text = refl

-- The world is the content of the one file. A write takes ten bytes at most, and reads find the text.
abbrev disk : External Bytes
disk = record {
  alloc = λ n w e. (true, w, e);
  connect_as = λ inst port user w e. (some 7, w, e);
  open_file = λ fs path flag w e. (some 3, w, e);
  close_file = λ fs h w e. (pos 0, w, e);
  pread = λ fs fh off len w e. (got (slice text off len), w, e);
  write = λ fs fh s w e. (pos (length (take 10 s)), w ++ take 10 s, e);
  path_info = λ fs path w e. (some sample_info, w, e);
  list_directory = λ fs path w e. (record { entries = some (sample_info ∷ []); count = 1 }, w, e);
  chmod = λ fs path mode w e. (pos 0, w, e);
  create_directory = λ fs path w e. (pos 0, w, e);
  delete = λ fs path w e. (pos 0, w, e);
  rename = λ fs src dest w e. (pos 0, w, e);
  exists = λ fs path w e. (pos 0, w, e);
}

abbrev start : Env Bytes
start = record { world = []; errno = pos 0; einfo = pos 0; fs_map = []; cmsd_fs = none; n2n = none }

abbrev saved : Env Bytes
saved = record start { world = text; fs_map = (codes "root", 7) ∷ [] }

abbrev pfn : Bytes
pfn = codes "/data/greeting"

set_multiple-saved :
    set_multiple disk digests 0 32800 1 (some pfn) values start ≡ some (pos 0, saved)
unfolding set_multiple connect_client get_real_path extract_auth_name
set_multiple-saved = refl

some_taken : (s : Bytes) → length (take 10 s) ≡ 0 → s ≡ []
some_taken [] p = refl
some_taken (c ∷ s) p = absurd (omega (arith, p))

disk-Writer : (fs fh : Option ℕ) → Writer disk fs fh (λ w. w)
disk-Writer fs fh = record {
  takes = λ w n s.
      (omega (arith, length-take 10 s), ap (λ t. w ++ t) (sym (take-length 10 s)), some_taken s);
  closes = λ w n h. refl;
}

disk-Serves : (fs fh : Option ℕ) → Serves disk fs fh text (λ w. 0)
disk-Serves fs fh = record {
  answers = λ w n off len. slice-Answers text (slice text off len) off len n refl;
  spends = λ w n off len. omega arith;
}

disk-Interrupts : (fs fh : Option ℕ) → Interrupts disk fs fh (λ w. 0)
disk-Interrupts fs fh = record { leaves = λ w off len. some_Leaves (slice text off len) 0 }

slice-Quiet : (s : Bytes) → Quiet (got s) (pos 0)
slice-Quiet [] = refl
slice-Quiet (c ∷ s) = tt

disk-Reliable : (fs fh : Option ℕ) → Reliable disk fs fh
disk-Reliable fs fh = record { quiet = λ w off len. slice-Quiet (slice text off len) }

set_multiple_lem_example :
    (rc : ℤ) × (e' : Env Bytes) × (set_multiple disk digests 0 32800 1 (some pfn) values start
      ≡ some (rc, e'))
    × Saved (render values) rc e'.world
unfolding open_file get_real_path connect_client extract_auth_name is_cksums get_checksum_filename
set_multiple_lem_example =
    set_multiple_lem disk digests 0 32800 0 (some pfn) values start (λ w. w) refl refl
      (disk-Writer (some 7) (some 3)) refl (omega (arith, ap length render-text))

disk-Serves_values : (fs fh : Option ℕ) → Serves disk fs fh (render values) (λ w. 0)
disk-Serves_values fs fh =
    subst (λ t. Serves disk fs fh t (λ w. 0)) (sym render-text) (disk-Serves fs fh)

get-found_reply_example :
    (e2 : Env Bytes) × (get disk digests 0 32800 0 true 64 [] (some (codes "MD5")) pfn saved
      ≡ some (found_reply disk 64 pfn e2 (codes "00ff")))
unfolding open_file get_real_path connect_client extract_auth_name find_value requested_name
get-found_reply_example =
    get-found_reply disk digests 0 32800 0 64 [] pfn (some (codes "MD5")) saved values (λ w. 0) refl
      (disk-Serves_values (some 7) (some 3)) (disk-Interrupts (some 7) (some 3))
      (disk-Reliable (some 7) (some 3)) values-IsEntry (omega (arith, ap length render-text))
      (omega (arith, ap length render-text))

get-set_multiple_example :
    (e2 : Env Bytes) × (get disk digests 0 32800 0 true 64 [] (some (codes "MD5")) pfn saved
      ≡ some (found_reply disk 64 pfn e2 (codes "00ff")))
unfolding open_file get_real_path connect_client extract_auth_name is_cksums get_checksum_filename
    find_value requested_name
get-set_multiple_example =
    get-set_multiple disk digests 0 32800 0 64 [] pfn (some (codes "MD5")) values start saved
      (λ w. w) (λ w. 0) refl refl (disk-Writer (some 7) (some 3)) refl set_multiple-saved refl
      (disk-Serves (some 7) (some 3)) (disk-Interrupts (some 7) (some 3))
      (disk-Reliable (some 7) (some 3)) values-IsEntry (omega (arith, ap length render-text))
      (omega (arith, ap length render-text))

contents_saved :
    get_file_contents disk digests 0 32800 1 true (some pfn) saved
    ≡ some ((pos 0, render values), saved)
unfolding get_file_contents open_file connect_client get_real_path extract_auth_name render read
contents_saved = refl

set_cks_lem_example :
    (written : List ChecksumValue) × (set_cks disk digests 0 32800 1 true
        (some pfn)
        (codes "md5")
        (codes "11ee")
        saved
      ≡ set_multiple disk digests 0 32800 1 (some pfn) written saved)
    × ((requested : Bytes)
        → find_value requested written [] ≡ (
            if eq_ignoring_case (codes "md5") requested
            then codes "11ee"
            else find_value requested values []))
unfolding holds
set_cks_lem_example =
    set_cks_lem disk digests 0 32800 1 true (some pfn) (codes "md5") (codes "11ee") values saved
      saved values-IsEntry contents_saved

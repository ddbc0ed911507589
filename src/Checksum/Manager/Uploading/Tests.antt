-- ===== src/Checksum/Manager/Uploading/Tests.antt =====
-- Two buffers that are written, closed, and looked up.
use xrootd_hdfs.Base.{
  ℕ, suc, pos, ◌<◌, Option, none, some, List, [], ◌∷◌, ◌++◌, Bytes, true, false, length, take_all,
  slice, ◌≡◌, refl, sym, ap, arith, if◌then◌else◌, ◌==◌, is_pos, ◌&&◌, ltb,
}
use xrootd_hdfs.Env.{Env, External, codes, got}
use xrootd_hdfs.Plugin.{get_real_path, connect_client, extract_auth_name}
use xrootd_hdfs.ReadAhead.Fill.{Serves}
use xrootd_hdfs.ReadAhead.Reliable.{Quiet, Reliable}
use xrootd_hdfs.ReadAhead.Spending.{Interrupts}
use xrootd_hdfs.Checksum.State.Graft.{update_all}
use xrootd_hdfs.Checksum.State.{
  cksum_byte, cvmfs_chunk_size, ChecksumState, create, update, finalize, all_bits, adler32_bit,
  get as state_get,
}
use xrootd_hdfs.Checksum.State.Words.{recorded}
use xrootd_hdfs.Checksum.Entries.{ChecksumValue, render}
use xrootd_hdfs.File.{File, new_file, open_file, write, close, close_handle, is_cksums}
use xrootd_hdfs.File.Writes.{write_all}
use xrootd_hdfs.Checksum.Manager.{get_checksum_filename, values_of, set_multiple, set_state, get}
use xrootd_hdfs.Checksum.Manager.Recorded.{adler32}
use xrootd_hdfs.Checksum.Manager.Lookup.{found_reply}
use xrootd_hdfs.Checksum.Manager.Writing.{Writer}
use xrootd_hdfs.Checksum.Manager.Uploading.{get-close}
use xrootd_hdfs.Sample.{sample_info, digests, digests-Streams, slice-Answers, some_Leaves}

abbrev state : ChecksumState Bytes
state = recorded digests all_bits 0 (codes "a" ∷ [])

abbrev text : Bytes
text = render (values_of state)

size : length text < 300
unfolding render values_of create update finalize state_get update_all cksum_byte cvmfs_chunk_size
size = omega arith

-- The file of the upload has handle 5; the world is the content of the checksum file. Each write is taken
-- whole, and reads find the text.
abbrev stored : Option ℕ → Bytes → Bytes → Bytes
stored fh w s = elim fh [ none ↦ w | some h ↦ if h == 5 then w else w ++ s ]

abbrev disk : External Bytes
disk = record {
  alloc = λ n w e. (true, w, e);
  connect_as = λ inst port user w e. (some 7, w, e);
  open_file = λ fs path flag w e. (some 3, w, e);
  close_file = λ fs h w e. (pos 0, w, e);
  pread = λ fs fh off len w e. (got (slice text off len), w, e);
  write = λ fs fh s w e. (pos (length s), stored fh w s, e);
  path_info = λ fs path w e. (some sample_info, w, e);
  list_directory = λ fs path w e. (record { entries = some (sample_info ∷ []); count = 1 }, w, e);
  chmod = λ fs path mode w e. (pos 0, w, e);
  create_directory = λ fs path w e. (pos 0, w, e);
  delete = λ fs path w e. (pos 0, w, e);
  rename = λ fs src dest w e. (pos 0, w, e);
  exists = λ fs path w e. (pos 0, w, e);
}

nothing_left : (s : Bytes) → length s ≡ 0 → s ≡ []
nothing_left [] p = refl
nothing_left (c ∷ s) p = absurd (omega (arith, p))

disk-Writer : Writer disk (some 7) (some 3) (λ w. w)
disk-Writer = record {
  takes = λ w n s.
      (omega arith, ap (λ t. w ++ t) (sym (take_all (length s) s (omega arith))), nothing_left s);
  closes = λ w n h. refl;
}

disk-Serves : Serves disk (some 7) (some 3) text (λ w. 0)
disk-Serves = record {
  answers = λ w n off len. slice-Answers text (slice text off len) off len n refl;
  spends = λ w n off len. omega arith;
}

disk-Interrupts : Interrupts disk (some 7) (some 3) (λ w. 0)
disk-Interrupts = record { leaves = λ w off len. some_Leaves (slice text off len) 0 }

slice-Quiet : (s : Bytes) → Quiet (got s) (pos 0)
slice-Quiet [] = refl
slice-Quiet (c ∷ s) = tt

disk-Reliable : Reliable disk (some 7) (some 3)
disk-Reliable = record { quiet = λ w off len. slice-Quiet (slice text off len) }

abbrev start : Env Bytes
start = record { world = []; errno = pos 0; einfo = pos 0; fs_map = []; cmsd_fs = none; n2n = none }

abbrev saved : Env Bytes
saved = record start { world = text; fs_map = (codes "root", 7) ∷ [] }

abbrev pfn : Bytes
pfn = codes "/data/a"

abbrev upload : File Bytes
upload = record new_file {
  fs = some 7;
  fh = some 5;
  fname = some pfn;
  state = some (create digests all_bits 0);
}

set_multiple-whole :
    (values : List ChecksumValue) (fuel : ℕ)
    → set_multiple disk digests 0 (suc fuel) 1 (some pfn) values start
      ≡ some (pos 0, record saved { world = render values })
unfolding set_multiple connect_client get_real_path extract_auth_name
set_multiple-whole values fuel = rw (one_write (render values), set_multiple) refl
  where
    one_write : (t : Bytes) → (is_pos (pos (length t)) && ltb (length t) (length t)) ≡ false
    one_write t = ground arith

set_state-saved : set_state disk digests 0 34000 1 (some pfn) state start ≡ some (pos 0, saved)
unfolding set_state
set_state-saved = set_multiple-whole (values_of state) 33999

upload_closed :
    let (f', e') = write_all disk digests upload (codes "a" ∷ []) start in
    close_handle disk digests f' e' ≡ (pos 0, start)
unfolding close_handle write_all write
upload_closed = refl

get-close_example :
    (f'' : File Bytes) × (close disk digests
        (set_state disk digests 0 34000 1)
        (write_all disk digests upload (codes "a" ∷ []) start).0
        (write_all disk digests upload (codes "a" ∷ []) start).1
      ≡ some ((pos 0, f''), saved))
    × ((e3 : Env Bytes) × (get disk digests 0 34000 0 true 64 [] (some (codes "adler32")) pfn saved
          ≡ some (found_reply disk 64 pfn e3 (state_get state adler32_bit))))
unfolding open_file get_real_path connect_client extract_auth_name is_cksums get_checksum_filename
get-close_example =
    get-close disk digests 0 34000 adler32 64 0 [] pfn (codes "a") [] upload start start saved
      (λ w. w) (λ w. 0) digests-Streams (λ w n s. refl) refl refl upload_closed refl refl
      disk-Writer refl set_state-saved refl disk-Serves disk-Interrupts disk-Reliable
      (omega (arith, size)) (omega (arith, size))

-- ===== src/Lib.antt =====
-- Verification library of the XRootD storage plugin for HDFS.
--
-- The plugin is loaded in two steps. XRootD loads src/XrdHdfsBootstrap.cc, which runs the program
-- src/XrdHdfsEnvCheck.cc to learn three variables, loads the JVM and hands on to the real plugin. That
-- reads its configuration (src/XrdHdfsConfig.cc), and has three parts. `XrdHdfsSys`, `XrdHdfsFile` and
-- `XrdHdfsDirectory` (src/XrdHdfs.cc) are the storage interface that XRootD calls: each operation
-- translates its path, takes a connection for the user, calls libhdfs and turns a failure into a negative
-- code. `ChecksumState` (src/XrdHdfsChecksumCalc.cc) computes checksums while a file is written;
-- `XrdHdfsFile::Close` hands them to `ChecksumManager` (src/XrdHdfsChecksum.cc), which keeps them in a
-- file under /cksums that it reads and writes through `XrdHdfsFile` again, or computes them of a file that
-- it reads.
--
-- Files:
--   Base           shared names, tests and lemmas on lists, numbers and C's integers
--   Env            `errno`, the process-wide state (`g_fs_map`, `m_cmsd_fs`, `the_N2N`), and the calls of
--                  outside code: a record of functions, `External`
--   Plugin         src/XrdHdfs.cc: `Emsg`, `ExtractAuthName`, `hadoop_connect`, `GetRealPath`, `Lfn2Pfn`
--   Sys            src/XrdHdfs.cc, `XrdHdfsSys`: `Stat`, `Chmod`, `Remdir`, `Rename`, `Truncate`,
--                  `Unlink`, `Create`; Sys.Mkdir: `Mkdir`
--   ReadAhead      src/XrdHdfs.cc, `XrdHdfsFile::Read` and the fields readbuf...
--   File           src/XrdHdfs.cc, `XrdHdfsFile`: `Open`, `Write`, `Fstat`, `Close`; File.Ending: the
--                  destructor
--   Directory      src/XrdHdfs.cc, `XrdHdfsDirectory`: `Opendir`, `Readdir`, `StatRet`, `Close`
--   Checksum.Table, Checksum.State, Checksum.State.Cvmfs
--                  src/XrdHdfsChecksumCalc.cc: `g_crctab`, `ChecksumState`
--   Checksum.Entries
--                  src/XrdHdfsChecksum.cc: the text of a checksum file, `Parse` and what `SetMultiple` writes
--   Checksum.Manager
--                  src/XrdHdfsChecksum.cc: `Get`, `Del`, `GetFileContents`, `SetMultiple`,
--                  both forms of `Set`, `List`, `Name`, `Size`, `Init`, and `Ver`; Checksum.Manager.Calc:
--                  `Calc` of src/XrdHdfsChecksumCalc.cc
--   EnvCheck       src/XrdHdfsEnvCheck.cc
--   Bootstrap      src/XrdHdfsBootstrap.cc
--   Config         src/XrdHdfsConfig.cc: `Configure`, `ConfigProc`, `ConfigXeq`, `xnml`, `ConfigN2N`, and
--                  of src/XrdHdfs.cc `Init` and `XrdOssGetStorageSystem`
--   Text           what the sources use of iostreams, printf and <strings.h>
--   Sample, and the modules Tests
--                  a small world, and each theorem at concrete values
--
-- An operation is a function from its arguments and `Env` to its result and the next `Env`. An object
-- (a file, a directory, a checksum state) is a record with the fields of its class; an operation gives
-- it back changed. A pointer to memory that an operation frees before it returns does not show.
--
-- Numbers: offsets and sizes are natural numbers; sums and differences of `size_t`, the counters of the
-- read-ahead buffer, and the 32-bit register of the checksum wrap round as written. Offsets are not
-- negative. The position in a directory is not bounded.
--
-- Fuel: `fill` retries EINTR without a limit, so it takes fuel; the free bytes of the buffer and the
-- interruptions to come are enough. `parse_loop` takes fuel for each byte of its text and never runs
-- out. `read_contents` and `write_contents` take fuel for their rounds: the read-ahead buffer, the bytes of
-- the file or text and the interruptions are enough. `set_multiple` takes fuel for its recursion through
-- `Close`; one call is enough if the checksum file stands under /cksums. `none` is the code that has not
-- ended yet. `close_chunks` and `cksum_length` have fuel for the bytes that they are given. The loop of
-- `Calc` takes fuel for its rounds: the bytes of the file and the interruptions are enough.
-- `read_environ` has fuel for each byte of the child's output, `scan_buffer` for each byte of its
-- buffer, and `search_jvm` for each byte of the path, so that none of them runs out; `read_records` takes fuel for each record of the configuration.
-- `safe_write` takes fuel for its calls of `write`; on an output that takes every write whole, two are
-- enough. The buffers of 8192 bytes are those of the source.
--
-- Not modelled: libhdfs, zlib, OpenSSL, malloc, the Name2Name plugin, XRootD's stream of configuration
-- words, its plugin loader and `XrdCksData`, and popen, dlopen and write(2) are parameters. Locks, log
-- messages, the statistics that `Close` prints, and the members that only return a constant or pass a
-- call on are left out, and so is `XrdHdfsFile::Connect`, which nothing calls.
pub mod Base
pub mod Env
pub mod Plugin
pub mod ReadAhead
pub mod Text
pub mod Checksum
pub mod Sys
pub mod File
pub mod Directory
pub mod EnvCheck
pub mod Bootstrap
pub mod Config
pub mod Sample

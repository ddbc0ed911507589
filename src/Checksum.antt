-- ===== src/Checksum.antt =====
-- src/XrdHdfsChecksum.hh, src/XrdHdfsChecksumCalc.cc and src/XrdHdfsChecksum.cc: the running checksums
-- of a file (`State`), and the files that keep their values.
pub mod Table
pub mod State
pub mod Entries
pub mod Manager
mod Tests

-- ===== src/File/Ending.antt =====
-- src/XrdHdfs.cc: the end of an `XrdHdfsFile`.
use xrootd_hdfs.Base.{some}
use xrootd_hdfs.Env.{M, External, pure, ◌>>=◌, ◌>>◌, call, unless_null}
use xrootd_hdfs.Plugin.{disconnect}
use xrootd_hdfs.File.{File}

module _ {W Ctx : Type 0} (x : External W) where
  -- `~XrdHdfsFile`: a file that is still open is closed, and its checksums are dropped.
  unfoldable pub destroy : File Ctx → M W (Unit {0})
  unfolding disconnect
  destroy f = unless_null f.fs (pure tt) λ fs. do
    unless_null f.fh (pure tt) λ h. do _ ← call (x.close_file f.fs h); pure tt
    disconnect x (some fs)

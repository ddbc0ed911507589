-- ===== src/Checksum/Tests.antt =====
-- An entry of the table of CRCs.
use xrootd_hdfs.Base.{◌*◌, ◌^◌, get_or, ◌≡◌, arith}
use xrootd_hdfs.Checksum.Table.{g_crctab, poly_remainder, g_crctab_lem}

g_crctab_lem_example : get_or g_crctab 200 0 ≡ poly_remainder 8 (200 * 2 ^ 24)
g_crctab_lem_example = g_crctab_lem 200 (omega arith)

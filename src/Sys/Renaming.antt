-- ===== src/Sys/Renaming.antt =====
-- `XrdHdfsSys::Rename` translates two paths before it connects.
use xrootd_hdfs.Base.{
  ℕ, pos, negsuc, eq_ℤ, false, Option, some, ◌≡◌, ◌↔◌, inl, inr, ap, Bytes, Option-cases,
}
use xrootd_hdfs.Env.{Env, External, Client, call, enomem, eio}
use xrootd_hdfs.Plugin.{connect_client, get_real_path}
use xrootd_hdfs.Sys.{rename}
use xrootd_hdfs.Sys.Namespace.{checked_iff, failed_report}

module _ {W : Type 0} (x : External W) (src dest : Bytes) (client : Option Client) (e : Env W) where
  -- Both paths and the connection that `Rename` works with, and the state in which it calls HDFS.
  pub record Prepared (fs : ℕ) (s d : Bytes) (e' : Env W) : Type 0 where
    pub behind_src : Env W
    pub behind_dest : Env W
    pub src_path : get_real_path x src e ≡ (some s, behind_src)
    pub dest_path : get_real_path x dest behind_src ≡ (some d, behind_dest)
    pub connected : connect_client x client behind_dest ≡ (some fs, e')

  -- `Rename` returns 0 exactly when it got both paths and a connection and `hdfsRename` did not return
  -- -1.
  pub rename_iff : ((rename x src dest client e).0 ≡ pos 0) ↔ (
      (fs : ℕ) × (s : Bytes) × (d : Bytes) × (e' : Env W) × Prepared fs s d e'
      × (eq_ℤ (x.rename fs s d e'.world (pos 0)).0 (negsuc 0) ≡ false))
  unfolding rename
  rename_iff =
      let e1 = (get_real_path x src e).1 in
      let e2 = (get_real_path x dest e1).1 in
      let e3 = (connect_client x client e2).1 in
      (
        elim (Option-cases (get_real_path x src e).0) [
          | inl null ↦ rw null λ h. absurd (failed_report enomem e1 h)
          | inr (s, hs) ↦ elim (Option-cases (get_real_path x dest e1).0) [
            | inl null ↦ rw (hs, null) λ h. absurd (failed_report enomem e2 h)
            | inr (d, hd) ↦ elim (Option-cases (connect_client x client e2).0) [
              | inl null ↦ rw (hs, hd, null) λ h. absurd (failed_report eio e3 h)
              | inr (fs, hf) ↦
                  rw (hs, hd, hf)
                    λ h. (
                      fs,
                      s,
                      d,
                      e3,
                      record {
                        behind_src = e1;
                        behind_dest = e2;
                        src_path = ap (λ r. (r, e1)) hs;
                        dest_path = ap (λ r. (r, e2)) hd;
                        connected = ap (λ r. (r, e3)) hf;
                      },
                      (checked_iff (call (x.rename fs s d)) e3).0 h,
                    )
            ]
          ]
        ],
        λ (fs, s, d, e', p, ok).
            rw (p.src_path, p.dest_path, p.connected)
              ((checked_iff (call (x.rename fs s d)) e').1 ok),
      )

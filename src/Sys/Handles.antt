-- ===== src/Sys/Handles.antt =====
-- `Unlink` leaves the files that are open in HDFS.
use xrootd_hdfs.Base.{ℕ, pos, negsuc, Option, Bytes, refl, ◌∙◌, inl, inr, eq_ℤ, is_set, Bool-cases}
use xrootd_hdfs.Env.{External, Client, eio}
use xrootd_hdfs.Plugin.{emsg}
use xrootd_hdfs.Plugin.Handles.{Counts, Keeps, with_connection-Keeps}
use xrootd_hdfs.Sys.{explain, unlink}

module _ {W : Type 0} (x : External W) (count : W → ℕ) (counts : Counts x count) where
  explain-Keeps : (fs : ℕ) (path : Bytes) → Keeps count (explain x fs path)
  unfolding explain
  explain-Keeps fs path e =
      let (rc, w, n) = x.exists fs path e.world (pos 0) in
      let kept = counts.exists fs path e.world (pos 0) in
      elim (Bool-cases (eq_ℤ e.errno eio)) [
        | inr other ↦ rw other refl
        | inl vague ↦ elim (Bool-cases (eq_ℤ rc (negsuc 0))) [
          | inr there ↦ rw (vague, there) kept
          | inl missing ↦ elim (Bool-cases (is_set n)) [
            | inl told ↦ rw (vague, missing, told) kept
            | inr untold ↦ rw (vague, missing, untold) kept
          ]
        ]
      ]

  pub unlink-Keeps : (path : Bytes) (client : Option Client) → Keeps count (unlink x path client)
  unfolding unlink emsg
  unlink-Keeps path client = with_connection-Keeps x count counts path client _ (λ fs p e.
      let (rc, w, n) = x.delete fs p e.world (pos 0) in
      let kept = counts.delete fs p e.world (pos 0) in
      elim (Bool-cases (eq_ℤ rc (negsuc 0))) [
        | inr fine ↦ rw fine kept
        | inl failed ↦ rw failed (explain-Keeps fs p (record e { world = w; errno = n }) ∙ kept)
      ])

-- ===== src/Db/Obsolete/Kept.antt =====
-- What `DeleteObsoleteFiles` leaves alone.
use level_db.Prelude.{◌≡◌, refl, Bool-cases, inl, inr}
use level_db.Status.{ok}
use level_db.Decimal.{NumberReader}
use level_db.Db.{DbImpl, Backend}
use level_db.Db.Obsolete.{delete_obsolete_files}

module _ {W File Lock Logger Key Mem Compaction : Type 0} (reader : NumberReader)
    (be : Backend W File Lock Logger Key Mem Compaction) where
  -- It changes the files alone.
  pub delete_obsolete_files_lem :
      (db : DbImpl W Key Mem)
      → delete_obsolete_files reader be db
        ≡ record db { world = (delete_obsolete_files reader be db).world }
  unfolding delete_obsolete_files
  delete_obsolete_files_lem db = elim (Bool-cases (ok db.bg_error)) [
    | inl e ↦ rw e refl
    | inr e ↦ rw e refl
  ]

-- ===== src/Db/Obsolete.antt =====
-- `DBImpl::DeleteObsoleteFiles` and `MaybeIgnoreError`.
pub mod Kept
pub mod Frame
use level_db.Prelude.{
  ℕ, Bool, true, false, ◌&&◌, ◌||◌, not, List, [], ◌∷◌, ◌++◌, Option, none, some, Bytes, codes, leb,
  ◌==◌, if◌then◌else◌,
}
use level_db.Status.{Status, ok_status, ok}
use level_db.Decimal.{NumberReader}
use level_db.FileName.{FileType, parse_file_name}
use level_db.Db.{DbImpl, Backend, contains}

module _ {W File Lock Logger Key Mem Compaction : Type 0} (reader : NumberReader)
    (be : Backend W File Lock Logger Key Mem Compaction) where
  open be use {env, live_files, log_number, prev_log_number, manifest_file_number, evict}

  -- The switch over the type of a file.
  unfoldable pub keep : List ℕ → W → ℕ → FileType → Bool
  unfolding contains
  keep live w number FileType.log_file = leb (log_number w) number || (number == prev_log_number w)
  keep live w number FileType.descriptor_file = leb (manifest_file_number w) number
  keep live w number FileType.table_file = contains live number
  keep live w number FileType.temp_file = contains live number
  keep live w number FileType.current_file = true
  keep live w number FileType.db_lock_file = true
  keep live w number FileType.info_log_file = true

  is_table : FileType → Bool
  is_table FileType.table_file = true
  is_table _ = false

  -- One round of the loop over the children of the directory, behind the call of `ParseFileName`.
  visit_parsed : Bytes → List ℕ → Bytes → Option (ℕ × FileType) → W → W
  unfolding keep is_table
  visit_parsed dbname live fname none w = w
  visit_parsed dbname live fname (some (number, type)) w =
      if keep live w number type
      then w
      else (let w₁ = if is_table type then evict number w else w in
          (env.delete_file (dbname ++ codes "/" ++ fname) w₁).1)

  visit_file : Bytes → List ℕ → Bytes → W → W
  unfolding visit_parsed
  visit_file dbname live fname w = visit_parsed dbname live fname (parse_file_name reader fname) w

  visit_files : Bytes → List ℕ → List Bytes → W → W
  visit_files dbname live [] w = w
  visit_files dbname live (fname ∷ rest) w =
      visit_files dbname live rest (visit_file dbname live fname w)

  unfoldable pub delete_obsolete_files : DbImpl W Key Mem → DbImpl W Key Mem
  unfolding visit_file visit_files
  delete_obsolete_files db =
      if not (ok db.bg_error)
      then db
      else (let live = db.pending_outputs ++ live_files db.world in
          let (s, filenames, w) = env.get_children db.dbname db.world in
          record db { world = visit_files db.dbname live filenames w })

  unfoldable pub maybe_ignore_error : DbImpl W Key Mem → Status → Status
  maybe_ignore_error db s = if ok s || db.paranoid_checks then s else ok_status

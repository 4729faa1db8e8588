-- ===== src/Db/Level0.antt =====
-- `DBImpl::WriteLevel10Table`, `CompactMemtable` and `RecordBackgroundError`: a memtable becomes a
-- table of level 0 or below.
pub mod Running
pub mod Saves
pub mod Saved
pub mod Total
pub mod Ends
pub mod Frame
use level_db.Prelude.{
  ℕ, ◌+◌, ◌-◌, ◌%◌, ◌^◌, Bool, true, false, ◌&&◌, List, [], ◌∷◌, ◌++◌, Option, none, some, Bytes,
  codes, ltb, if◌then◌else◌, ◌>>=◌,
}
use level_db.Status.{Status, ok_status, ok, io_error}
use level_db.Decimal.{NumberReader}
use level_db.Builder.{FileMetaData, build_table}
use level_db.Db.{DbImpl, Backend, Edit, EditCall, insert, erase}
use level_db.Db.Obsolete.{delete_obsolete_files}

module _ {W File Lock Logger Key Mem Compaction : Type 0} (reader : NumberReader)
    (be : Backend W File Lock Logger Key Mem Compaction) where
  open be use {
    env, tables, new_file_number, pick_level, log_and_apply, entries, iter_status, others, no_key,
  }

  unfoldable pub record_background_error : DbImpl W Key Mem → Status → DbImpl W Key Mem
  record_background_error db s =
      if ok db.bg_error then record db { bg_error = s; signals = db.signals + 1 } else db

  -- The level for a table, asked of the version that was captured: `some w` is the version that is
  -- the current one of the world `w`, `none` a null pointer.
  pub base_level : Option W → FileMetaData Key → ℕ
  base_level none meta = 0
  base_level (some w) meta = pick_level meta.smallest meta.largest w

  -- Behind the table: an empty file has been deleted and is not added to the manifest.
  pub table_written :
      ℕ
      → Option W
      → Edit Key
      → Status × FileMetaData Key × W
      → DbImpl W Key Mem
      → Status × Edit Key × DbImpl W Key Mem
  unfolding erase base_level
  table_written start_micros base edit (s, meta, w) db =
      let added = ok s && ltb 0 meta.file_size in
      let level = if added then base_level base meta else 0 in
      let micros = (env.now_micros db.world + 2 ^ 64 - start_micros) % 2 ^ 64 in
      (
        s,
        (if added then edit ++ EditCall.add_file level meta ∷ [] else edit),
        record db {
          pending_outputs = erase meta.number db.pending_outputs;
          stats = (level, micros, meta.file_size) ∷ db.stats;
        },
      )

  -- A number for the new table, which is protected from deletion; then the mutex is released.
  pub start_level0 : DbImpl W Key Mem → ℕ × DbImpl W Key Mem
  unfolding insert
  start_level0 db =
      let (number, w) = new_file_number db.world in
      (number, others (record db { world = w; pending_outputs = insert number db.pending_outputs }))

  -- `BuildTable` without the mutex. `iter` is the iterator of the memtable.
  pub build_level0 : Mem → ℕ × DbImpl W Key Mem → Option (Status × FileMetaData Key × W)
  build_level0 mem (number, db) =
      build_table env tables db.dbname (entries mem) (iter_status mem)
        (record { number = number; file_size = 0; smallest = no_key; largest = no_key }) db.world

  pub write_level0_table :
      Mem → Edit Key → Option W → DbImpl W Key Mem → Option (Status × Edit Key × DbImpl W Key Mem)
  unfolding table_written start_level0 build_level0
  write_level0_table mem edit base db =
      let started = start_level0 db in
      build_level0 mem started >>= λ r. some (
        table_written (env.now_micros db.world) base edit r
          (others (record started.1 { world = r.2 })))

  -- The end of `CompactMemtable`: the new table takes the place of the memtable.
  pub commit_memtable : Status → DbImpl W Key Mem → DbImpl W Key Mem
  unfolding record_background_error
  commit_memtable s db =
      if ok s
      then delete_obsolete_files reader be (record db { imm = none; has_imm = false })
      else record_background_error db s

  -- `LogAndApply` releases the mutex while it writes the manifest.
  pub install_memtable : Status × Edit Key × DbImpl W Key Mem → Status × DbImpl W Key Mem
  install_memtable (s, edit, db) =
      let s₁ =
        if ok s && db.shutting_down
        then io_error (codes "Deleting DB during memtable compaction") []
        else s in
      let edit' =
        edit ++ EditCall.set_prev_log_number 0 ∷ EditCall.set_log_number db.logfile_number ∷ [] in
      let (s₂, w) = log_and_apply edit' db.world in
      if ok s₁ then (s₂, others (record db { world = w })) else (s₁, db)

  unfoldable pub compact_memtable : DbImpl W Key Mem → Option (DbImpl W Key Mem)
  unfolding write_level0_table install_memtable commit_memtable
  compact_memtable db = do
    imm ← db.imm
    written ← write_level0_table imm [] (some db.world) db
    let installed = install_memtable written
    some (commit_memtable installed.0 installed.1)

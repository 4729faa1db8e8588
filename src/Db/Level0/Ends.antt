-- ===== src/Db/Level0/Ends.antt =====
-- How `CompactMemtable` ends.
use level_db.Prelude.{◌<◌, ◌≡◌, ◌⊎◌, ap, ◌∙◌, true, [], some, Bytes, ◌>>=◌}
use level_db.Status.{ok}
use level_db.Decimal.{NumberReader}
use level_db.Db.{DbImpl, Backend}
use level_db.Db.Level0.{compact_memtable, write_level0_table, install_memtable, commit_memtable}
use level_db.Db.Level0.Total.{write_level0_table_total}
use level_db.Db.Level0.Saved.{Patient, Committed, Stopped, compact_memtable-Committed}

module _ {W File Lock Logger Key Mem Compaction : Type 0} (reader : NumberReader)
    (be : Backend W File Lock Logger Key Mem Compaction)
    (opens : (f : Bytes) (w : W)
      → ok (be.env.new_writable_file f w).0 ≡ true
      → (file : File) × ((be.env.new_writable_file f w).1 ≡ some file))
    (fills : (file : File) (w : W)
      → ok (be.tables.finish file w).0 ≡ true
      → 0 < be.tables.file_size file (be.tables.finish file w).1)
    (counts : (w : W) → 0 < (be.new_file_number w).0) where
  compact_memtable_total :
      (mem : Mem) (db : DbImpl W Key Mem)
      → db.imm ≡ some mem
      → (db' : DbImpl W Key Mem) × (compact_memtable reader be db ≡ some db')
  unfolding compact_memtable
  compact_memtable_total mem db held =
      let (t, written) =
        write_level0_table_total reader be opens fills counts mem [] (some db.world) db in
      let ends = λ (m : Mem). write_level0_table reader be m [] (some db.world) db >>= λ u. some (
        commit_memtable reader be (install_memtable reader be u).0
          (install_memtable reader be u).1) in
      (
        _,
        ap (λ o. o >>= ends) held
            ∙ ap
                (λ o. o >>= λ u. some (
                  commit_memtable reader be (install_memtable reader be u).0
                    (install_memtable reader be u).1))
                written,
      )

  -- If other threads put no memtable aside while there is one, then `CompactMemtable` returns. It
  -- either has installed a version with a synced table to which all the entries of the memtable were added in
  -- order, or without one if there are no entries, in which the current log is the first that counts, and the memtable
  -- is gone; or the memtable is still there, and the error stops the background work. File numbers are positive, a
  -- file that is opened with success is there, and a table that is finished with success is not empty.
  pub compact_memtable_ends :
      (mem : Mem) (db : DbImpl W Key Mem)
      → Patient reader be
      → db.imm ≡ some mem
      → (db' : DbImpl W Key Mem) × (compact_memtable reader be db ≡ some db')
        × (Committed reader be mem db.logfile_number db' ⊎ Stopped reader be mem db')
  compact_memtable_ends mem db patient held =
      let (db', run) = compact_memtable_total mem db held in
      (db', run, compact_memtable-Committed reader be mem db db' patient held run)

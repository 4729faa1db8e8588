-- ===== src/Db/Level0/Total.antt =====
-- When `WriteLevel10Table` returns.
use level_db.Prelude.{◌<◌, ◌≡◌, refl, true, some, Bytes, Option}
use level_db.Status.{Status, ok}
use level_db.Decimal.{NumberReader}
use level_db.Builder.Total.{build_table_total}
use level_db.Db.{DbImpl, Backend, Edit}
use level_db.Db.Level0.{write_level0_table, build_level0, start_level0}

module _ {W File Lock Logger Key Mem Compaction : Type 0} (reader : NumberReader)
    (be : Backend W File Lock Logger Key Mem Compaction)
    (opens : (f : Bytes) (w : W)
      → ok (be.env.new_writable_file f w).0 ≡ true
      → (file : File) × ((be.env.new_writable_file f w).1 ≡ some file))
    (fills : (file : File) (w : W)
      → ok (be.tables.finish file w).0 ≡ true
      → 0 < be.tables.file_size file (be.tables.finish file w).1)
    (counts : (w : W) → 0 < (be.new_file_number w).0) where
  -- The number of the new table is positive, so that no assertion of `BuildTable` fails.
  pub write_level0_table_total :
      (mem : Mem) (edit : Edit Key) (base : Option W) (db : DbImpl W Key Mem)
      → (t : Status × Edit Key × DbImpl W Key Mem) × (write_level0_table reader be mem edit base db
          ≡ some t)
  unfolding write_level0_table build_level0 start_level0
  write_level0_table_total mem edit base db =
      let (number, started) = start_level0 reader be db in
      let (r, built) =
        build_table_total be.env be.tables opens fills started.dbname (be.entries mem)
          (be.iter_status mem)
          (record { number = number; file_size = 0; smallest = be.no_key; largest = be.no_key })
          started.world (counts db.world) in
      rw built (_, refl)

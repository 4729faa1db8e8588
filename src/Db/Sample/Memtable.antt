-- ===== src/Db/Sample/Memtable.antt =====
-- The theorem on `CompactMemtable` at the sample backend.
use level_db.Prelude.{◌≡◌, true, refl, ◌⊎◌, List, [], ◌∷◌, some, Bytes, codes, arith}
use level_db.Decimal.Reader.{run_reader}
use level_db.Db.{DbImpl}
use level_db.Db.Level0.{compact_memtable}
use level_db.Db.Level0.Saved.{Committed, Stopped}
use level_db.Db.Level0.Ends.{compact_memtable_ends}
use level_db.Db.Sample.Logs.{numbering}
use level_db.Db.Sample.{sample_fills, World, sample_db}

-- A database with a memtable that is being converted.
abbrev full : DbImpl World Bytes (List (Bytes × Bytes))
full = record sample_db {
  imm = some ((codes "a", codes "1") ∷ (codes "b", codes "2") ∷ []);
  has_imm = true;
  logfile_number = 9;
}

compact_memtable_ends_example :
    (db' : DbImpl World Bytes (List (Bytes × Bytes))) × (compact_memtable run_reader numbering full
      ≡ some db')
    × (Committed run_reader numbering ((codes "a", codes "1") ∷ (codes "b", codes "2") ∷ []) 9 db'
        ⊎ Stopped run_reader numbering ((codes "a", codes "1") ∷ (codes "b", codes "2") ∷ []) db')
compact_memtable_ends_example =
    compact_memtable_ends run_reader numbering (λ f w e. (0, refl)) sample_fills (λ w. omega arith)
      ((codes "a", codes "1") ∷ (codes "b", codes "2") ∷ []) full (λ db mem h. (h, refl)) refl

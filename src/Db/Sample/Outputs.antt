-- ===== src/Db/Sample/Outputs.antt =====
-- A compaction of the sample database with one output.
use level_db.Prelude.{ℕ, ◌≡◌, refl, true, List, [], ◌∷◌, some, Bytes, codes, arith}
use level_db.Status.{ok_status}
use level_db.Slice.{equal}
use level_db.Decimal.{digits, print_padded, in_buffer}
use level_db.Decimal.Reader.{run_reader}
use level_db.FileName.{FileType, parse_file_name, make_file_name, table_file_name}
use level_db.FileName.Grammar.{Owned, ldb, parse_file_name-Owned}
use level_db.Db.{CompactionState, DbImpl, contains, insert, erase, erase_all}
use level_db.Db.Obsolete.{delete_obsolete_files}
use level_db.Db.Schedule.{cleanup_compaction}
use level_db.Db.Outputs.{new_compaction_state, add_output, make_output, open_compaction_output_file}
use level_db.Db.Outputs.Pending.{
  open_compaction_output_file_spared, cleanup-open_compaction_output_file,
}
use level_db.Db.Sample.{World, has, sample_backend, sample_db}
use level_db.Db.Sample.Files.{sample-IsFramed}

abbrev State : Type 0
State = DbImpl World Bytes (List (Bytes × Bytes))

abbrev new_state : CompactionState ℕ Bytes
new_state = new_compaction_state

abbrev one_output : CompactionState ℕ Bytes
one_output = record {
  outputs = record { number = 2; smallest = []; largest = [] } ∷ [];
  outfile = some 0;
  builder = true;
}

-- A table with the next number is in the directory.
abbrev with_table : State
with_table = record sample_db {
  world = record sample_db.world { names = codes "/db/000002.ldb" ∷ [] };
}

abbrev behind : State
behind = record with_table {
  pending_outputs = 2 ∷ [];
  world = record {
    names = codes "/db000002.ldb" ∷ codes "/db/000002.ldb" ∷ [];
    next_number = 3;
    written = 0;
  };
}

runs :
    open_compaction_output_file sample_backend new_state with_table
    ≡ some (ok_status, one_output, behind)
unfolding open_compaction_output_file add_output make_output table_file_name make_file_name
    print_padded digits in_buffer insert contains equal
runs = refl

parsed : parse_file_name run_reader (codes "000002.ldb") ≡ some (2, FileType.table_file)
parsed = (parse_file_name-Owned run_reader (codes "000002.ldb") 2 FileType.table_file).1 (
    Owned.numbered {ds = codes "000002"}
      (
        (λ q. cc),
        (
          (omega arith, omega arith),
          (
            (omega arith, omega arith),
            (
              (omega arith, omega arith),
              (
                (omega arith, omega arith),
                ((omega arith, omega arith), ((omega arith, omega arith), tt)),
              ),
            ),
          ),
        ),
        refl,
        omega arith,
      )
      ldb)

open_compaction_output_file_spared_example :
    has
      (delete_obsolete_files run_reader sample_backend behind).world.names
      (codes "/db/000002.ldb")
    ≡ true
unfolding equal
open_compaction_output_file_spared_example =
    open_compaction_output_file_spared run_reader sample_backend sample-IsFramed (λ d n h. h)
      new_state with_table (ok_status, one_output, behind) (codes "000002.ldb") runs parsed refl

cleanup-open_compaction_output_file_example :
    contains (record behind { pending_outputs = [] }).pending_outputs 2
    ≡ contains with_table.pending_outputs 2
unfolding contains cleanup_compaction erase_all erase
cleanup-open_compaction_output_file_example =
    cleanup-open_compaction_output_file run_reader sample_backend (λ d. refl) new_state with_table
      with_table (record behind { pending_outputs = [] }) (ok_status, one_output, behind) 2 refl
      runs refl refl

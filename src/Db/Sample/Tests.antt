-- ===== src/Db/Sample/Tests.antt =====
-- The theorems of the database at the sample backend.
use level_db.Prelude.{arith, ◌≡◌, refl, false, List, [], ◌∷◌, Option, none, some, Bytes, codes, ◌⊎◌}
use level_db.Status.{Status, ok_status, ok}
use level_db.Decimal.Reader.{run_reader}
use level_db.Coding.Sample.{little_endian}
use level_db.FileName.{temp_file_name, table_file_name, make_file_name, descriptor_file_name}
use level_db.Decimal.{digits, print_padded, in_buffer}
use level_db.Builder.{FileMetaData, build_table}
use level_db.Builder.Outcome.{Outcome}
use level_db.Builder.Written.{IsWritten}
use level_db.Builder.Ends.{build_table_ends}
use level_db.Db.Sample.{sample_fills, World, sample_env, sample_tables, sample_backend, sample_db}
use level_db.Slice.{equal, starts_with, remove_prefix}
use level_db.Db.{DbImpl, erase_all}
use level_db.Db.CurrentFile.{replace_current, set_current_file}
use level_db.Db.Schedule.{
  start_manual, maybe_schedule_compaction, background_compaction, bg_work, background_call,
  guarded_compaction, compact_tables, picked_compaction_step, run_compaction, merge_inputs,
  cleanup_compaction, end_call,
}
use level_db.Db.Schedule.OneCall.{OneCall, IsServiced, bg_work-OneCall}
use level_db.Db.Schedule.Protocol.{Client, Clients, Reach, Reach-OneCall}
use level_db.Db.Schedule.Cancel.{background_compaction_null}
use level_db.Db.Open.{db_open, ensure_log, finish_open, start_work, install_recovery}
use level_db.Db.Startup.{recover, recover_locked, create_new, new_db, write_manifest}
use level_db.Db.Obsolete.{delete_obsolete_files}
use level_db.Db.Open.Outcome.{db_open_refuses}

background_compaction_null_example :
    background_compaction run_reader sample_backend sample_db ≡ none
unfolding start_manual
background_compaction_null_example =
    background_compaction_null run_reader sample_backend sample_db 7 1 refl refl refl refl refl

-- No request is there, and the compaction that the version set picks is run.
abbrev calm : DbImpl World Bytes (List (Bytes × Bytes))
calm = record sample_db { manual_compaction = none }

-- The same while the call runs.
abbrev run_of :
    Option (DbImpl World Bytes (List (Bytes × Bytes))) → DbImpl World Bytes (List (Bytes × Bytes))
run_of none = calm
run_of (some db) = db

bg_work-OneCall_example :
    (calm.owed_calls ≡ 1)
    × (OneCall (run_of (bg_work run_reader sample_backend calm))
        × IsServiced run_reader sample_backend (run_of (bg_work run_reader sample_backend calm)))
unfolding bg_work background_call guarded_compaction background_compaction compact_tables
    picked_compaction_step run_compaction merge_inputs cleanup_compaction end_call
    maybe_schedule_compaction delete_obsolete_files erase_all
bg_work-OneCall_example =
    bg_work-OneCall run_reader sample_backend (λ db h. h) (λ c db h. h) calm
      (run_of (bg_work run_reader sample_backend calm)) refl refl

-- No call is scheduled; then one is asked for, and runs.
abbrev at_rest : DbImpl World Bytes (List (Bytes × Bytes))
at_rest = record calm { bg_compaction_scheduled = false; owed_calls = 0 }

abbrev called : DbImpl World Bytes (List (Bytes × Bytes))
called = run_of (
    bg_work run_reader sample_backend (maybe_schedule_compaction run_reader sample_backend at_rest))

called-Reach : Reach run_reader sample_backend called
unfolding bg_work background_call guarded_compaction background_compaction compact_tables
    picked_compaction_step run_compaction merge_inputs cleanup_compaction end_call
    maybe_schedule_compaction delete_obsolete_files erase_all
called-Reach =
    Reach.call (Reach.client (Reach.start at_rest refl refl) Client.asks) (omega arith) refl

Reach-OneCall_example : OneCall called
Reach-OneCall_example =
    Reach-OneCall run_reader sample_backend (λ db. Clients.done)
      (λ c db.
        Clients.next Clients.done
          (Client.changes (record db { manual_compaction = none }) refl refl))
      called called-Reach

-- The result of an open.
abbrev opened :
    Option (Status × Option (DbImpl World Bytes (List (Bytes × Bytes))))
    → Status × Option (DbImpl World Bytes (List (Bytes × Bytes)))
opened none = (ok_status, some calm)
opened (some r) = r

db_open_refuses_example :
    (ok (opened (db_open run_reader little_endian sample_backend calm)).0 ≡ false)
    × ((opened (db_open run_reader little_endian sample_backend calm)).1 ≡ none)
unfolding db_open descriptor_file_name temp_file_name make_file_name in_buffer print_padded digits
    replace_current recover recover_locked create_new new_db write_manifest ensure_log finish_open
    start_work install_recovery set_current_file equal starts_with remove_prefix
db_open_refuses_example =
    db_open_refuses run_reader little_endian sample_backend calm
      (opened (db_open run_reader little_endian sample_backend calm)) refl refl refl

abbrev two_entries : List (Bytes × Bytes)
two_entries = (codes "a", codes "1") ∷ (codes "b", codes "2") ∷ []

abbrev new_meta : FileMetaData Bytes
new_meta = record { number = 6; file_size = 0; smallest = []; largest = [] }

build_table_ends_example :
    (fname : Bytes) × (r : Status × FileMetaData Bytes × World) × (table_file_name (codes "/db") 6
      ≡ some fname)
    × (build_table sample_env sample_tables
          (codes "/db")
          two_entries
          ok_status
          new_meta
          sample_db.world
        ≡ some r)
    × Outcome sample_env sample_tables fname two_entries ok_status 6 sample_db.world r
    × ((ok r.0 ≡ false)
        ⊎ (two_entries ≡ [])
        ⊎ IsWritten sample_env sample_tables (codes "/db") two_entries 6 r.1.file_size)
build_table_ends_example =
    build_table_ends sample_env sample_tables (λ f w e. (0, refl)) sample_fills (codes "/db")
      two_entries ok_status new_meta sample_db.world (omega arith)

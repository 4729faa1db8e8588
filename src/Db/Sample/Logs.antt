-- ===== src/Db/Sample/Logs.antt =====
-- Recovery of a log with one batch.
use level_db.Prelude.{
  inr, All, ℕ, ◌≤◌, length, ◌≡◌, refl, arith, true, false, List, [], ◌∷◌, some, Bytes, codes, ◌+◌,
  ◌⊎◌,
}
use level_db.Status.{ok_status, Status, ok}
use level_db.Decimal.{print_padded, digits, in_buffer}
use level_db.Decimal.Reader.{run_reader}
use level_db.Coding.Sample.{little_endian}
use level_db.FileName.{log_file_name, make_file_name}
use level_db.Batch.{init}
use level_db.Batch.Header.{Op}
use level_db.Batch.Insert.{add_op, add_from}
use level_db.Batch.Contents.{apply_ops, init-Holds, apply_ops-Holds}
use level_db.Db.{Backend, DbImpl}
use level_db.Db.LogFile.{Recovery, recover_log_file}
use level_db.Db.LogFile.Entries.{Entry, Encodes, add_entries, largest_of}
use level_db.Db.LogFile.Largest.{IsCovered}
use level_db.Db.LogFile.Covers.{recover_log_file_covers}
use level_db.Db.LogFile.Reuse.{recover_log_file_reused}
use level_db.Db.LogFile.Restored.{Restored}
use level_db.Db.LogFile.Clients.{record_of, IsBatch, recover_log_file-records}
use level_db.Db.Sample.{sample_fills, World, sample_backend, sample_db}

abbrev pub ops : List Op
ops = Op.put (codes "k") (codes "v") ∷ Op.delete (codes "k") ∷ []

abbrev pub logged : Entry
logged = record { first = 0; ops = ops }

-- Every log holds the one batch.
abbrev logging : Backend World ℕ ℕ ℕ Bytes (List (Bytes × Bytes)) ℕ
logging = record sample_backend { log_records = λ f w. (apply_ops little_endian init ops).rep ∷ [] }

logged-Encodes :
    Encodes run_reader little_endian logging (apply_ops little_endian init ops).rep logged
logged-Encodes = record {
  holds =
      apply_ops-Holds little_endian init 0 [] ops (init-Holds little_endian) (omega arith)
        (omega arith);
  some_ops = omega arith;
  few_ops = omega arith;
  last_fits = omega arith;
}

abbrev pub State : Type 0
State = DbImpl World Bytes (List (Bytes × Bytes))

abbrev reusing : State
reusing = record sample_db { reuse_logs = true }

abbrev pub nothing : Recovery Bytes
nothing = record { save_manifest = false; edit = []; max_sequence = 0 }

pub named : log_file_name (codes "/db") 3 ≡ some (codes "/db000003.log")
unfolding log_file_name make_file_name print_padded digits in_buffer
named = refl

fits : length (add_from little_endian sample_backend.add_entry 0 ops []) ≤ 4194304
unfolding add_from add_op
fits = omega arith

recover_log_file_reused_example :
    (db' : State) × (recover_log_file run_reader little_endian logging 3 true nothing reusing
      ≡ some (ok_status, record nothing { max_sequence = largest_of 0 (logged ∷ []) }, db'))
    × (db'.mem ≡ some (add_entries run_reader little_endian logging (logged ∷ []) []))
    × (db'.logfile_number ≡ 3)
    × (db'.log_open ≡ true)
recover_log_file_reused_example =
    recover_log_file_reused run_reader little_endian logging 3 nothing reusing
      (codes "/db000003.log") 0 (logged ∷ []) named refl refl (inr (logged-Encodes, tt)) (fits, tt)
      refl refl refl refl refl

-- The log is replayed, and kept open.
one_recovered :
    (db' : State) × (recover_log_file run_reader little_endian logging 3 true nothing reusing
      ≡ some (ok_status, record nothing { max_sequence = largest_of 0 (logged ∷ []) }, db'))
    × (db'.mem ≡ some (add_entries run_reader little_endian logging (logged ∷ []) []))
    × (db'.logfile_number ≡ 3)
    × (db'.log_open ≡ true)
one_recovered =
    recover_log_file_reused run_reader little_endian logging 3 nothing reusing
      (codes "/db000003.log") 0 (logged ∷ []) named refl refl (inr (logged-Encodes, tt)) (fits, tt)
      refl refl refl refl refl

-- Positive file numbers.
abbrev pub numbering : Backend World ℕ ℕ ℕ Bytes (List (Bytes × Bytes)) ℕ
numbering = record logging {
  new_file_number = λ w. (w.next_number + 1, record w { next_number = w.next_number + 1 });
}

pub logged_there :
    Encodes run_reader little_endian numbering (apply_ops little_endian init ops).rep logged
logged_there = record {
  holds = logged-Encodes.holds;
  some_ops = omega arith;
  few_ops = omega arith;
  last_fits = omega arith;
}

-- Every batch fills the memtable.
abbrev pub tight : State
tight = record sample_db { write_buffer_size = 0 }

-- The log holds the batch as a client has put it together.
abbrev from_client : Backend World ℕ ℕ ℕ Bytes (List (Bytes × Bytes)) ℕ
from_client = record numbering { log_records = λ f w. record_of little_endian logged ∷ [] }

logged-IsBatch : IsBatch logged
logged-IsBatch = record {
  some_ops = omega arith;
  few_ops = omega arith;
  last_fits = omega arith;
  short = ((omega arith, omega arith), (omega arith, tt));
}

recover_log_file-records_example :
    (r : Status × Recovery Bytes × State) × (recover_log_file run_reader little_endian from_client 3
        true nothing tight
      ≡ some r)
    × ((ok r.0 ≡ false)
        ⊎ Restored run_reader little_endian from_client (logged ∷ []) nothing r.1 r.2)
recover_log_file-records_example =
    recover_log_file-records run_reader little_endian from_client (λ f w e. (0, refl)) sample_fills
      (λ w. omega arith) 3 true nothing tight (codes "/db000003.log") 0 (logged ∷ [])
      (logged-IsBatch, tt) named refl refl refl refl refl

recover_log_file_covers_example :
    (0 ≤ largest_of 0 (logged ∷ []))
    × All
        (IsCovered run_reader little_endian logging (largest_of 0 (logged ∷ [])))
        ((apply_ops little_endian init ops).rep ∷ [])
recover_log_file_covers_example =
    recover_log_file_covers run_reader little_endian logging 3 true nothing
      (record nothing { max_sequence = largest_of 0 (logged ∷ []) }) reusing one_recovered.0
      (codes "/db000003.log") 0 ok_status named refl refl one_recovered.1 refl

-- ===== src/Db/Sample.antt =====
-- A small environment and a small backend that meet the interfaces of the database. They stand in
-- for the code that the repository does not hold in the tests.
pub mod Tests
pub mod Logs
pub mod Waiting
pub mod Files
pub mod Outputs
pub mod Memtable
pub mod Writers
pub mod Recovery
use level_db.Prelude.{
  ◌<◌, ◌≡◌, arith, ℕ, ◌+◌, Bool, true, false, List, [], ◌∷◌, ◌++◌, drop, Option, none, some, Bytes,
  codes, if◌then◌else◌, ◌==◌, not, length,
}
use level_db.Status.{Status, ok_status, not_found, ok}
use level_db.Slice.{equal, starts_with}
use level_db.Env.{Env}
use level_db.Builder.{FileMetaData, TableOps}
use level_db.Db.{Backend, DbImpl, ManualCompaction}

-- The names of the files, the next file number, and how much was written to the open file.
pub record World : Type 0 where
  pub names : List Bytes
  pub next_number : ℕ
  pub written : ℕ

abbrev pub has : List Bytes → Bytes → Bool
has [] f = false
has (n ∷ ns) f = if equal n f then true else has ns f

abbrev pub without : List Bytes → Bytes → List Bytes
without [] f = []
without (n ∷ ns) f = let rest = without ns f in if equal n f then rest else n ∷ rest

-- The names below a directory.
abbrev pub listed : Bytes → List Bytes → List Bytes
listed d [] = []
listed d (n ∷ ns) =
    let rest = listed d ns in
    if starts_with n (d ++ codes "/") then drop (length d + 1) n ∷ rest else rest

abbrev pub add_name : Bytes → World → World
add_name f w = record w { names = f ∷ without w.names f; written = 0 }

abbrev pub remove_name : Bytes → World → Status × World
remove_name f w = (ok_status, record w { names = without w.names f })

abbrev pub sample_env : Env World ℕ ℕ ℕ
sample_env = record {
  new_sequential_file = λ f w. (ok_status, some 0, w);
  new_random_access_file = λ f w. (ok_status, some 0, w);
  new_writable_file = λ f w. (ok_status, some 0, add_name f w);
  new_appendable_file = λ f w. (ok_status, some 0, w);
  file_exists = λ f w. has w.names f;
  get_children = λ d w. (ok_status, listed d w.names, w);
  delete_file = remove_name;
  create_dir = λ d w. (ok_status, w);
  delete_dir = λ d w. (ok_status, w);
  get_file_size = λ f w. (ok_status, w.written, w);
  rename_file = λ f g w. (ok_status, add_name g (remove_name f w).1);
  lock_file = λ f w. (ok_status, some 1, w);
  unlock_file = λ l w. (ok_status, w);
  schedule = λ w. w;
  start_thread = λ w. w;
  get_test_directory = λ w. (ok_status, codes "/tmp", w);
  new_logger = λ f w. (ok_status, some 0, w);
  now_micros = λ w. 0;
  sleep_for_microseconds = λ n w. w;
  append = λ f b w. (ok_status, record w { written = w.written + length b });
  close = λ f w. (ok_status, w);
  flush = λ f w. (ok_status, w);
  sync = λ f w. (ok_status, w);
  read = λ f n w. (ok_status, [], w);
  skip = λ f n w. (ok_status, w);
}

-- A key is decoded to its bytes.
abbrev pub sample_tables : TableOps World ℕ Bytes
sample_tables = record {
  add = λ f k v w. record w { written = w.written + 1 };
  finish = λ f w. (if w.written == 0 then not_found (codes "no entries") [] else ok_status, w);
  file_size = λ f w. w.written;
  open_status = λ n size w. (ok_status, w);
  decode = λ k. k;
}

-- A compaction is its level. Its work gives up the manual compaction that runs.
abbrev pub sample_backend : Backend World ℕ ℕ ℕ Bytes (List (Bytes × Bytes)) ℕ
sample_backend = record {
  env = sample_env;
  tables = sample_tables;
  new_file_number = λ w. (w.next_number, record w { next_number = w.next_number + 1 });
  mark_file_number_used = λ n w. w;
  live_files = λ w. [];
  log_number = λ w. 4;
  prev_log_number = λ w. 0;
  manifest_file_number = λ w. 2;
  last_sequence = λ w. 0;
  set_last_sequence = λ n w. w;
  log_and_apply = λ e w. (ok_status, w);
  needs_compaction = λ w. true;
  pick_compaction = λ w. (some 0, w);
  compact_range = λ level from to w. (some level, w);
  pick_level = λ from to w. 0;
  overlap_in_level = λ level from to w. false;
  recover_versions = λ w. (ok_status, false, w);
  evict = λ n w. w;
  is_trivial_move = λ c. false;
  num_first_inputs = λ c. 1;
  input_level = λ c. c;
  first_input = λ c. record { number = 5; file_size = 1; smallest = []; largest = [] };
  last_input_largest = λ c. [];
  release_inputs = λ c w. w;
  entries = λ m. m;
  iter_status = λ m. ok_status;
  empty_mem = [];
  memory_usage = λ m. length m;
  add_entry = λ seq type k v m. (k, v) ∷ m;
  encode_edit = λ e. [];
  comparator_name = codes "leveldb.BytewiseComparator";
  add_record = λ f b w. (ok_status, w);
  log_records = λ f w. [];
  write_string_to_file_sync = λ text f w. (ok_status, add_name f w);
  current_file_name = λ dbname. dbname ++ codes "/CURRENT";
  no_key = [];
  first_key = λ k. k;
  last_key = λ k. k;
  others = λ db. db;
  do_compaction_work = λ c db. (
    record { outputs = []; outfile = none; builder = false },
    ok_status,
    record db { manual_compaction = none },
  );
}

-- A database with a background call on its way, and a request at address 7.
abbrev pub sample_db : DbImpl World Bytes (List (Bytes × Bytes))
sample_db = record {
  dbname = codes "/db";
  create_if_missing = true;
  error_if_exists = false;
  paranoid_checks = false;
  reuse_logs = false;
  write_buffer_size = 4194304;
  db_locked = false;
  shutting_down = false;
  mem = none;
  imm = none;
  has_imm = false;
  log_open = false;
  logfile_number = 0;
  bg_compaction_scheduled = true;
  bg_error = ok_status;
  manual_compaction = some 7;
  manuals = λ a. record { level = 1; done = false; begin = none; end = none };
  pending_outputs = [];
  signals = 0;
  owed_calls = 1;
  stats = [];
  world = record { names = codes "/db/LOCK" ∷ []; next_number = 2; written = 0 };
}

pub sample_fills :
    (file : ℕ) (w : World)
    → ok (sample_tables.finish file w).0 ≡ true
    → 0 < sample_tables.file_size file (sample_tables.finish file w).1
sample_fills file w h = ground arith

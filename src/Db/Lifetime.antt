-- ===== src/Db/Lifetime.antt =====
-- The constructor and the destructor of `DBImpl`.
pub mod Ends
use level_db.Prelude.{
  ℕ, ◌+◌, ◌-◌, ◌%◌, ◌^◌, Bool, true, false, not, [], Option, none, some, Bytes, if◌then◌else◌,
  ◌>>=◌,
}
use level_db.Status.{ok_status}
use level_db.Env.{Env}
use level_db.Options.{Options, sanitize_options}
use level_db.Db.{DbImpl, Backend, ManualCompaction}
use level_db.Db.Waits.{wait_while}

-- `max_open_files - kNumNonTableCacheFiles`, an `int`; ten files are kept for other uses.
pub table_cache_size : ℕ → ℕ
table_cache_size max_open_files = (max_open_files + (2 ^ 32 - 10)) % 2 ^ 32

module _ {W File Lock Logger Cache Comparator Filter Key Mem : Type 0}
    (env : Env W File Lock Logger) (new_lru_cache : ℕ → Cache)
    (new_version_set : ℕ → Bytes → W → W) where
  -- The members as the constructor leaves them. `TableCache` and `VersionSet` come into the world,
  -- the first with its size. The object has no manual compactions.
  pub new_db_impl :
      Comparator
      → Filter
      → ManualCompaction Key
      → Options Logger Cache Comparator Filter
      → Bytes
      → W
      → DbImpl W Key Mem
  unfolding table_cache_size
  new_db_impl icmp ipolicy no_manual raw_options dbname w =
      let (options, w') = sanitize_options env new_lru_cache dbname icmp ipolicy raw_options w in
      record {
        dbname = dbname;
        create_if_missing = options.create_if_missing;
        error_if_exists = options.error_if_exists;
        paranoid_checks = options.paranoid_checks;
        reuse_logs = options.reuse_logs;
        write_buffer_size = options.write_buffer_size;
        db_locked = false;
        shutting_down = false;
        mem = none;
        imm = none;
        has_imm = false;
        log_open = false;
        logfile_number = 0;
        bg_compaction_scheduled = false;
        bg_error = ok_status;
        manual_compaction = none;
        manuals = λ a. no_manual;
        pending_outputs = [];
        signals = 0;
        owed_calls = 0;
        stats = [];
        world = new_version_set (table_cache_size options.max_open_files) dbname w';
      }

module _ {W File Lock Logger Key Mem Compaction : Type 0}
    (be : Backend W File Lock Logger Key Mem Compaction) (unlock_db : W → W) where
  -- Behind the wait: the lock of the directory is given back (`UnlockFile`), and what the members
  -- point to is deleted; `none` are pointers that dangle. `db_lock_` keeps its value.
  pub release_members : DbImpl W Key Mem → DbImpl W Key Mem
  release_members db = record db {
    mem = none;
    imm = none;
    log_open = false;
    world = if db.db_locked then unlock_db db.world else db.world;
  }

  -- `~DBImpl`, on fuel for its wait.
  pub destroy : ℕ → DbImpl W Key Mem → Option (DbImpl W Key Mem)
  unfolding release_members
  destroy fuel db =
      wait_while be (λ d. d.bg_compaction_scheduled) fuel (record db { shutting_down = true })
      >>= λ d. some (release_members d)

-- ===== src/Db/Open.antt =====
-- `DB::Open`. The destructor that it runs after an error is not modelled.
pub mod Outcome
pub mod Returns
pub mod Logged
pub mod Durable
pub mod Lossless
use level_db.Prelude.{
  is_some, ℕ, Bool, true, false, ◌&&◌, not, List, [], ◌∷◌, ◌++◌, Option, none, some, Bytes,
  if◌then◌else◌, ◌>>=◌, assert,
}
use level_db.Status.{Status, ok}
use level_db.Decimal.{NumberReader}
use level_db.Coding.{Coding}
use level_db.FileName.{log_file_name}
use level_db.Db.{DbImpl, Backend, EditCall}
use level_db.Db.Obsolete.{delete_obsolete_files}
use level_db.Db.LogFile.{Recovery}
use level_db.Db.Schedule.{maybe_schedule_compaction}
use level_db.Db.Startup.{recover}

module _ {W File Lock Logger Key Mem Compaction : Type 0} (reader : NumberReader) (coding : Coding)
    (be : Backend W File Lock Logger Key Mem Compaction) where
  open be use {env, new_file_number, log_and_apply, others, empty_mem}

  -- `*save_manifest` and `*edit` as `Recover` finds them.
  abbrev pub no_recovery : Recovery Key
  no_recovery = record { save_manifest = false; edit = []; max_sequence = 0 }

  -- A new log and a memtable for it; `logfile_number_` keeps its value.
  pub create_log :
      Recovery Key → DbImpl W Key Mem → Option (Status × Recovery Key × DbImpl W Key Mem)
  create_log recovery db = do
    let (number, w) = new_file_number db.world
    name ← log_file_name db.dbname number
    let (s, file, w') = env.new_writable_file name w
    some (
        if ok s
        then (
          s,
          record recovery { edit = recovery.edit ++ EditCall.set_log_number number ∷ [] },
          record db { log_open = true; mem = some empty_mem; world = w' },
        )
        else (s, recovery, record db { world = w' }))

  unfoldable pub ensure_log :
      Status × Recovery Key × DbImpl W Key Mem → Option (Status × Recovery Key × DbImpl W Key Mem)
  unfolding create_log
  ensure_log (s, recovery, db) =
      if ok s && not (is_some db.mem) then create_log recovery db else some (s, recovery, db)

  unfoldable pub install_recovery :
      Status × Recovery Key × DbImpl W Key Mem → Status × DbImpl W Key Mem
  install_recovery (s, recovery, db) =
      if ok s && recovery.save_manifest
      then (let edit =
            recovery.edit
            ++ EditCall.set_prev_log_number 0 ∷ EditCall.set_log_number db.logfile_number ∷ [] in
          let (s', w) = log_and_apply edit db.world in (s', others (record db { world = w })))
      else (s, db)

  unfoldable pub start_work : Status × DbImpl W Key Mem → Status × DbImpl W Key Mem
  start_work (s, db) = (
    s,
    if ok s then maybe_schedule_compaction reader be (delete_obsolete_files reader be db) else db,
  )

  -- `*dbptr` is the database where the status is a success, and null elsewhere.
  unfoldable pub finish_open :
      Status × DbImpl W Key Mem → Option (Status × Option (DbImpl W Key Mem))
  finish_open (s, db) = if ok s then assert (is_some db.mem) (some (s, some db)) else some (s, none)

  unfoldable pub db_open : DbImpl W Key Mem → Option (Status × Option (DbImpl W Key Mem))
  unfolding ensure_log install_recovery start_work finish_open
  db_open impl = do
    recovered ← recover reader coding be no_recovery impl
    logged ← ensure_log recovered
    finish_open (start_work (install_recovery logged))

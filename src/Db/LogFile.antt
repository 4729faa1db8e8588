-- ===== src/Db/LogFile.antt =====
-- `DBImpl::RecoverLogFile`: the records of a log are inserted into memtables.
pub mod Entries
pub mod Reuse
pub mod Largest
pub mod Covers
pub mod Segments
pub mod Restored
pub mod Lossless
pub mod Ready
pub mod Clients
use level_db.Prelude.{
  is_some, ℕ, ◌+◌, ◌-◌, ◌%◌, ◌^◌, Bool, true, false, ◌&&◌, not, List, [], ◌∷◌, Option, none, some,
  Bytes, length, ltb, ◌==◌, if◌then◌else◌, ◌>>=◌, assert,
}
use level_db.Status.{Status, ok_status, ok}
use level_db.Decimal.{NumberReader}
use level_db.Coding.{Coding}
use level_db.FileName.{log_file_name}
use level_db.Batch.{WriteBatch, sequence, count, set_contents, insert_into}
use level_db.Db.{DbImpl, Backend, Edit}
use level_db.Db.Obsolete.{maybe_ignore_error}
use level_db.Db.Level0.{write_level0_table}

-- What a recovery collects: `*save_manifest`, `*edit` and `*max_sequence`.
pub record Recovery (Key : Type 0) : Type 0 where
  pub save_manifest : Bool
  pub edit : Edit Key
  pub max_sequence : ℕ

-- The variables of the loop over the records.
pub record Replay (W Key Mem : Type 0) : Type 0 where
  pub recovery : Recovery Key
  pub current : Option Mem
  pub compactions : ℕ
  pub status : Status
  pub db : DbImpl W Key Mem

-- An `int` as the 64-bit number that it is converted to.
pub sign_extend : ℕ → ℕ
sign_extend n = if ltb n (2 ^ 31) then n else n + 2 ^ 64 - 2 ^ 32

abbrev pub mem_or_new : {Mem : Type 0} → Mem → Option Mem → Mem
mem_or_new new none = new
mem_or_new new (some mem) = mem

module _ {W File Lock Logger Key Mem Compaction : Type 0} (reader : NumberReader) (coding : Coding)
    (be : Backend W File Lock Logger Key Mem Compaction) where
  open be use {env, add_entry, empty_mem, memory_usage, log_records}

  -- `Sequence + Count - 1`
  pub last_seq_of : WriteBatch → ℕ
  unfolding sign_extend
  last_seq_of b = (sequence coding b + sign_extend (count coding b) + 2 ^ 64 - 1) % 2 ^ 64

  -- The memtable has become a table.
  pub level0_written :
      ℕ → Replay W Key Mem → Status × Edit Key × DbImpl W Key Mem → Replay W Key Mem
  level0_written compactions r (s, edit, db) = record r {
    recovery = record (r.recovery) { save_manifest = true; edit = edit };
    current = none;
    compactions = compactions;
    status = s;
    db = db;
  }

  -- A memtable that outgrew the write buffer becomes a table.
  pub flush_if_large : Mem → Replay W Key Mem → Option (Replay W Key Mem)
  unfolding level0_written
  flush_if_large mem r =
      if ltb r.db.write_buffer_size (memory_usage mem)
      then (do
        written ← write_level0_table reader be mem r.recovery.edit none r.db
        some (level0_written (r.compactions + 1) r written))
      else some (record r { current = some mem })

  -- Behind `InsertInto`: an error that is not ignored ends the loop.
  pub record_inserted : WriteBatch → Status → Mem → Replay W Key Mem → Option (Replay W Key Mem)
  unfolding last_seq_of flush_if_large
  record_inserted b s mem r =
      let s' = maybe_ignore_error reader be r.db s in
      let seq = last_seq_of b in
      let largest = r.recovery.max_sequence in
      if ok s'
      then flush_if_large mem (record r {
        recovery = record (r.recovery) { max_sequence = if ltb largest seq then seq else largest };
        status = s';
      })
      else some (record r { current = some mem; status = s' })

  -- One record; one that is shorter than a header is reported and skipped.
  pub replay_record : Bytes → Replay W Key Mem → Option (Replay W Key Mem)
  unfolding record_inserted
  replay_record rec r = if ltb (length rec) 12 then some r else (do
    b ← set_contents coding (record { rep = [] }) rec
    (s, inserted) ← insert_into coding add_entry b (mem_or_new empty_mem r.current)
    record_inserted b s inserted.mem r)

  -- `while (reader.ReadRecord(...) && status.ok())`
  pub replay_records : List Bytes → Replay W Key Mem → Option (Replay W Key Mem)
  unfolding replay_record
  replay_records [] r = some r
  replay_records (rec ∷ rest) r =
      if ok r.status then replay_record rec r >>= replay_records rest else some r

  -- The last log may be kept open for new records, with its memtable.
  pub reuse_log : Bytes → ℕ → Replay W Key Mem → Option (Replay W Key Mem)
  reuse_log fname log_number r =
      let (s, lfile_size, w) = env.get_file_size fname r.db.world in
      let (s', file, w') = env.new_appendable_file fname w in
      assert (not r.db.log_open) (
        assert (not (is_some r.db.mem)) (
          some (
            if ok s
            then (if ok s'
                then record r {
                  current = none;
                  db = record (r.db) {
                    world = w';
                    log_open = true;
                    logfile_number = log_number;
                    mem = some (mem_or_new empty_mem r.current);
                  };
                }
                else record r { db = record (r.db) { world = w' } })
            else record r { db = record (r.db) { world = w } })))

  -- A memtable that was not reused is written out.
  flush_current : Option Mem → Replay W Key Mem → Option (Replay W Key Mem)
  unfolding level0_written
  flush_current none r = some r
  flush_current (some mem) r =
      if ok r.status
      then (do
        written ← write_level0_table reader be mem r.recovery.edit none r.db
        some (level0_written r.compactions r written))
      else some (record r { current = none })

  flush_rest : Replay W Key Mem → Option (Replay W Key Mem)
  unfolding flush_current
  flush_rest r = flush_current r.current r

  pub finish_log : Bytes → ℕ → Bool → Replay W Key Mem → Option (Replay W Key Mem)
  unfolding reuse_log flush_rest
  finish_log fname log_number last_log r =
      (if ok r.status && (r.db.reuse_logs && (last_log && (r.compactions == 0)))
        then reuse_log fname log_number r
        else some r)
      >>= flush_rest

  replay_log :
      Bytes
      → ℕ
      → Bool
      → Recovery Key
      → Option File
      → DbImpl W Key Mem
      → Option (Status × Recovery Key × DbImpl W Key Mem)
  unfolding replay_records finish_log
  replay_log fname log_number last_log recovery opened db = do
    file ← opened
    let start : Replay W Key Mem = record {
      recovery = recovery;
      current = none;
      compactions = 0;
      status = ok_status;
      db = db;
    }
    r ← replay_records (log_records file db.world) start
    r' ← finish_log fname log_number last_log r
    some (r'.status, r'.recovery, r'.db)

  pub recover_log_file :
      ℕ → Bool → Recovery Key → DbImpl W Key Mem → Option (Status × Recovery Key × DbImpl W Key Mem)
  unfolding replay_log
  recover_log_file log_number last_log recovery db = do
    fname ← log_file_name db.dbname log_number
    let opening = env.new_sequential_file fname db.world
    let db₁ = record db { world = opening.2 }
    if ok opening.0
        then replay_log fname log_number last_log recovery opening.1 db₁
        else some (maybe_ignore_error reader be db₁ opening.0, recovery, db₁)

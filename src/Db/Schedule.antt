-- ===== src/Db/Schedule.antt =====
-- The background thread: `MaybeScheduleCompaction`, `BGWork`, `BackgroundCall`,
-- `BackgroundCompaction` and `CleanupCompaction`.
pub mod OneCall
pub mod Cancel
pub mod Protocol
use level_db.Prelude.{
  ◌||◌, is_some, ℕ, ◌+◌, ◌-◌, Bool, true, false, ◌&&◌, not, List, [], ◌∷◌, ◌++◌, Option, none, some,
  Bytes, codes, ltb, ◌==◌, if◌then◌else◌, ◌>>=◌, assert,
}
use level_db.Status.{Status, ok_status, ok}
use level_db.Decimal.{NumberReader}
use level_db.Db.{
  DbImpl, Backend, ManualCompaction, EditCall, CompactionState, numbers_of, erase_all,
}
use level_db.Db.Obsolete.{delete_obsolete_files}
use level_db.Db.Level0.{record_background_error, compact_memtable}

-- A write to an object at an address.
abbrev pub update {ℓ} : {A : Type ℓ} → (ℕ → A) → ℕ → A → ℕ → A
update f a v i = if i == a then v else f i

module _ {W File Lock Logger Key Mem Compaction : Type 0} (reader : NumberReader)
    (be : Backend W File Lock Logger Key Mem Compaction) where
  open be use {
    env, log_and_apply, needs_compaction, pick_compaction, compact_range, is_trivial_move,
    num_first_inputs, input_level, first_input, last_input_largest, release_inputs,
    do_compaction_work, others, no_key,
  }

  unfoldable pub maybe_schedule_compaction : DbImpl W Key Mem → DbImpl W Key Mem
  maybe_schedule_compaction db =
      if db.bg_compaction_scheduled
      then db
      else if db.shutting_down
      then db
      else if not (ok db.bg_error)
      then db
      else if not (is_some db.imm)
          && (not (is_some db.manual_compaction) && not (needs_compaction db.world))
      then db
      else record db {
        bg_compaction_scheduled = true;
        owed_calls = db.owed_calls + 1;
        world = env.schedule db.world;
      }

  -- A builder that is left is abandoned; the output file is deleted with it.
  unfoldable pub cleanup_compaction :
      CompactionState File Key → DbImpl W Key Mem → Option (DbImpl W Key Mem)
  cleanup_compaction compact db = assert (compact.builder || not (is_some compact.outfile)) (
      some
        (record db { pending_outputs = erase_all (numbers_of compact.outputs) db.pending_outputs }))

  -- Moves the one input file to the next level.
  pub move_file : Compaction → DbImpl W Key Mem → Status × DbImpl W Key Mem
  move_file c db =
      let f = first_input c in
      let edit =
        EditCall.delete_file (input_level c) f.number
        ∷ EditCall.add_file (input_level c + 1) f
        ∷ [] in
      let (s, w) = log_and_apply edit db.world in
      let db₁ = others (record db { world = w }) in
      (s, if ok s then db₁ else record_background_error reader be db₁ s)

  pub trivial_move : Compaction → DbImpl W Key Mem → Option (Status × DbImpl W Key Mem)
  unfolding move_file
  trivial_move c db = assert (num_first_inputs c == 1) (some (move_file c db))

  unfoldable pub merge_inputs : Compaction → DbImpl W Key Mem → Option (Status × DbImpl W Key Mem)
  unfolding cleanup_compaction
  merge_inputs c db = do
    let (compact, s, db₁) = do_compaction_work c db
    let db₂ = if ok s then db₁ else record_background_error reader be db₁ s
    db₃ ← cleanup_compaction compact db₂
    some (s, delete_obsolete_files reader be (record db₃ { world = release_inputs c db₃.world }))

  unfoldable pub run_compaction :
      Bool → Option Compaction → DbImpl W Key Mem → Option (Status × DbImpl W Key Mem)
  unfolding trivial_move merge_inputs
  run_compaction is_manual none db = some (ok_status, db)
  run_compaction is_manual (some c) db =
      if not is_manual && is_trivial_move c then trivial_move c db else merge_inputs c db

  -- The last block of `BackgroundCompaction`, on the object that `manual_compaction_` points to
  -- now; a null pointer is a fault.
  pub finish_manual : Key → Status × DbImpl W Key Mem → Option (DbImpl W Key Mem)
  finish_manual manual_end (s, db) = do
    a ← db.manual_compaction
    let m = db.manuals a
    let m₁ = if ok s then m else record m { done = true }
    let m₂ = if m₁.done then m₁ else record m₁ { begin = some manual_end }
    some (record db { manuals = update db.manuals a m₂; manual_compaction = none })

  last_key_of : Option Compaction → Key
  last_key_of none = no_key
  last_key_of (some c) = last_input_largest c

  -- `VersionSet::CompactRange` chooses the inputs; there are none left when the request is done.
  unfoldable pub start_manual : ℕ → DbImpl W Key Mem → Option Compaction × DbImpl W Key Mem
  start_manual a db =
      let m = db.manuals a in
      let (c, w) = compact_range m.level m.begin m.end db.world in
      (
        c,
        record db {
          manuals = update db.manuals a (record m { done = not (is_some c) });
          world = w;
        },
      )

  pub manual_compaction_step : ℕ → DbImpl W Key Mem → Option (DbImpl W Key Mem)
  unfolding finish_manual last_key_of start_manual
  manual_compaction_step a db =
      let (c, started) = start_manual a db in
      run_compaction true c started >>= finish_manual (last_key_of c)

  unfoldable pub picked_compaction_step : DbImpl W Key Mem → Option (DbImpl W Key Mem)
  picked_compaction_step db =
      let (c, w) = pick_compaction db.world in
      run_compaction false c (record db { world = w }) >>= λ r. some r.1

  unfoldable pub compact_tables : Option ℕ → DbImpl W Key Mem → Option (DbImpl W Key Mem)
  unfolding manual_compaction_step picked_compaction_step
  compact_tables none db = picked_compaction_step db
  compact_tables (some a) db = manual_compaction_step a db

  unfoldable pub background_compaction : DbImpl W Key Mem → Option (DbImpl W Key Mem)
  unfolding compact_tables
  background_compaction db =
      if is_some db.imm
      then compact_memtable reader be db
      else compact_tables db.manual_compaction db

  unfoldable pub guarded_compaction : DbImpl W Key Mem → Option (DbImpl W Key Mem)
  unfolding background_compaction
  guarded_compaction db =
      if db.shutting_down
      then some db
      else if not (ok db.bg_error)
      then some db
      else background_compaction db

  unfoldable pub end_call : DbImpl W Key Mem → DbImpl W Key Mem
  unfolding maybe_schedule_compaction
  end_call db =
      let db₁ = maybe_schedule_compaction (record db { bg_compaction_scheduled = false }) in
      record db₁ { signals = db₁.signals + 1 }

  unfoldable pub background_call : DbImpl W Key Mem → Option (DbImpl W Key Mem)
  unfolding guarded_compaction end_call
  background_call db =
      assert db.bg_compaction_scheduled (guarded_compaction db >>= λ db₁. some (end_call db₁))

  -- The environment makes one of the calls that it owes.
  unfoldable pub bg_work : DbImpl W Key Mem → Option (DbImpl W Key Mem)
  unfolding background_call
  bg_work db = background_call (record db { owed_calls = db.owed_calls - 1 })

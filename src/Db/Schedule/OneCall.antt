-- ===== src/Db/Schedule/OneCall.antt =====
-- The mark of the background call and the calls that the environment owes.
use level_db.Prelude.{
  ◌||◌, is_some, ℕ, ◌+◌, ◌-◌, ◌≡◌, ◌⊎◌, subst, Bool, true, false, ◌&&◌, not, [], ◌∷◌, Option, none,
  some, arith, Bool-cases, inl, inr, if◌then◌else◌, from_some, ◌==◌, assert-eq-some, assert-true,
  >>=-eq-some,
}
use level_db.Status.{Status, ok}
use level_db.Decimal.{NumberReader}
use level_db.Db.{DbImpl, Backend, EditCall}
use level_db.Db.Level0.{record_background_error}
use level_db.Db.Level0.Running.{
  IsRunning, record_background_error-IsRunning, delete_obsolete_files-IsRunning,
  compact_memtable-IsRunning,
}
use level_db.Db.Schedule.{
  maybe_schedule_compaction, cleanup_compaction, move_file, merge_inputs, run_compaction,
  finish_manual, start_manual, last_key_of, manual_compaction_step, picked_compaction_step,
  compact_tables, background_compaction, guarded_compaction, end_call, background_call, bg_work,
}

-- The environment owes a call exactly when one is marked as scheduled.
abbrev pub OneCall : {W Key Mem : Type 0} → DbImpl W Key Mem → Type 0
OneCall db = db.owed_calls ≡ (if db.bg_compaction_scheduled then 1 else 0)

module _ {W File Lock Logger Key Mem Compaction : Type 0} (reader : NumberReader)
    (be : Backend W File Lock Logger Key Mem Compaction) where
  open be use {needs_compaction}

  -- No work is left behind: a call is scheduled, or the database shuts down, or an error stopped
  -- the background work, or there is nothing to do.
  abbrev pub IsServiced : DbImpl W Key Mem → Type 0
  IsServiced db =
      (db.bg_compaction_scheduled ≡ true)
      ⊎ (db.shutting_down ≡ true)
      ⊎ (ok db.bg_error ≡ false)
      ⊎ ((is_some db.imm ≡ false)
          × (is_some db.manual_compaction ≡ false)
          × (needs_compaction db.world ≡ false))

  -- `MaybeScheduleCompaction` keeps the number of owed calls in step with the mark, never schedules
  -- a second call, and leaves no work without a call that is to do it.
  pub maybe_schedule_compaction-OneCall :
      (db : DbImpl W Key Mem)
      → OneCall db
      → OneCall (maybe_schedule_compaction reader be db)
        × IsServiced (maybe_schedule_compaction reader be db)
  unfolding maybe_schedule_compaction
  maybe_schedule_compaction-OneCall db h = ground arith

module _ {W File Lock Logger Key Mem Compaction : Type 0} (reader : NumberReader)
    (be : Backend W File Lock Logger Key Mem Compaction)
    (others_running : (db : DbImpl W Key Mem) → IsRunning db → IsRunning (be.others db))
    (work_running : (c : Compaction) (db : DbImpl W Key Mem)
      → IsRunning db
      → IsRunning (be.do_compaction_work c db).2) where
  move_file-IsRunning :
      (c : Compaction) (db : DbImpl W Key Mem)
      → IsRunning db
      → IsRunning (move_file reader be c db).1
  unfolding move_file
  move_file-IsRunning c db h =
      let edit =
        EditCall.delete_file (be.input_level c) (be.first_input c).number
        ∷ EditCall.add_file (be.input_level c + 1) (be.first_input c)
        ∷ [] in
      let (s, w) = be.log_and_apply edit db.world in
      let moved = be.others (record db { world = w }) in
      let running = others_running (record db { world = w }) h in
      elim (Bool-cases (ok s)) [
        | inl e ↦ rw e running
        | inr e ↦ rw e (record_background_error-IsRunning reader be others_running moved s running)
      ]

  merge_inputs-IsRunning :
      (c : Compaction) (db : DbImpl W Key Mem) (r : Status × DbImpl W Key Mem)
      → IsRunning db
      → merge_inputs reader be c db ≡ some r
      → IsRunning r.1
  unfolding merge_inputs cleanup_compaction
  merge_inputs-IsRunning c db r h e =
      let (compact, s, db₁) = be.do_compaction_work c db in
      let db₂ = if ok s then db₁ else record_background_error reader be db₁ s in
      let running = work_running c db h in
      let (db₃, cleaned, same) = >>=-eq-some (cleanup_compaction reader be compact db₂) _ e in
      let kept : IsRunning db₂ = elim (Bool-cases (ok s)) [
        | inl t ↦ rw t running
        | inr t ↦ rw t (record_background_error-IsRunning reader be others_running db₁ s running)
      ] in
      let held = assert-eq-some (compact.builder || not (is_some compact.outfile)) _ db₃ cleaned in
      subst (λ (t : Status × DbImpl W Key Mem). IsRunning t.1) (from_some _ r same)
        (delete_obsolete_files-IsRunning reader be others_running _
          (subst IsRunning (from_some _ db₃ held) kept))

  run_compaction-IsRunning :
      (is_manual : Bool) (c : Option Compaction) (db : DbImpl W Key Mem)
      (r : Status × DbImpl W Key Mem)
      → IsRunning db
      → run_compaction reader be is_manual c db ≡ some r
      → IsRunning r.1
  unfolding run_compaction
  run_compaction-IsRunning is_manual none db r h e =
      subst (λ (t : Status × DbImpl W Key Mem). IsRunning t.1) (from_some _ r e) h
  run_compaction-IsRunning is_manual (some c) db r h e =
      elim (Bool-cases (not is_manual && be.is_trivial_move c)) [
        | inl t ↦
            subst (λ (t : Status × DbImpl W Key Mem). IsRunning t.1)
              (from_some (move_file reader be c db) r
                (assert-eq-some (be.num_first_inputs c == 1) _ r (rw t at e)))
              (move_file-IsRunning c db h)
        | inr t ↦ merge_inputs-IsRunning c db r h (rw t at e)
      ]

  finish_manual-IsRunning :
      (k : Key) (r : Status × DbImpl W Key Mem) (db' : DbImpl W Key Mem)
      → IsRunning r.1
      → finish_manual reader be k r ≡ some db'
      → IsRunning db'
  unfolding finish_manual
  finish_manual-IsRunning k (s, db) db' h e =
      let (a, held, same) = >>=-eq-some db.manual_compaction _ e in
      subst IsRunning (from_some _ db' same) h

  manual_step-IsRunning :
      (a : ℕ) (db db' : DbImpl W Key Mem)
      → IsRunning db
      → manual_compaction_step reader be a db ≡ some db'
      → IsRunning db'
  unfolding manual_compaction_step
  manual_step-IsRunning a db db' h e =
      let (c, started) = start_manual reader be a db in
      let (r, ran, finished) = >>=-eq-some (run_compaction reader be true c started) _ e in
      finish_manual-IsRunning (last_key_of reader be c) r db'
        (run_compaction-IsRunning true c started r h ran) finished

  picked_step-IsRunning :
      (db db' : DbImpl W Key Mem)
      → IsRunning db
      → picked_compaction_step reader be db ≡ some db'
      → IsRunning db'
  unfolding picked_compaction_step
  picked_step-IsRunning db db' h e =
      let (c, w) = be.pick_compaction db.world in
      let (r, ran, same) =
        >>=-eq-some (run_compaction reader be false c (record db { world = w })) _ e in
      subst IsRunning (from_some _ db' same)
        (run_compaction-IsRunning false c (record db { world = w }) r h ran)

  compact_tables-IsRunning :
      (m : Option ℕ) (db db' : DbImpl W Key Mem)
      → IsRunning db
      → compact_tables reader be m db ≡ some db'
      → IsRunning db'
  unfolding compact_tables
  compact_tables-IsRunning none db db' h e = picked_step-IsRunning db db' h e
  compact_tables-IsRunning (some a) db db' h e = manual_step-IsRunning a db db' h e

  background_compaction-IsRunning :
      (db db' : DbImpl W Key Mem)
      → IsRunning db
      → background_compaction reader be db ≡ some db'
      → IsRunning db'
  unfolding background_compaction
  background_compaction-IsRunning db db' h e = elim (Bool-cases (is_some db.imm)) [
    | inl t ↦ compact_memtable-IsRunning reader be others_running db db' h (rw t at e)
    | inr t ↦ compact_tables-IsRunning db.manual_compaction db db' h (rw t at e)
  ]

  guarded_compaction-IsRunning :
      (db db' : DbImpl W Key Mem)
      → IsRunning db
      → guarded_compaction reader be db ≡ some db'
      → IsRunning db'
  unfolding guarded_compaction
  guarded_compaction-IsRunning db db' h e = elim (Bool-cases db.shutting_down) [
    | inl t ↦ subst IsRunning (from_some db db' (simp t at e)) h
    | inr t ↦ elim (Bool-cases (ok db.bg_error)) [
      | inl f ↦ background_compaction-IsRunning db db' h (simp (t, f) at e)
      | inr f ↦ subst IsRunning (from_some db db' (simp (t, f) at e)) h
    ]
  ]

  end_call-OneCall :
      (db : DbImpl W Key Mem)
      → IsRunning db
      → OneCall (end_call reader be db) × IsServiced reader be (end_call reader be db)
  unfolding end_call
  end_call-OneCall db h =
      maybe_schedule_compaction-OneCall reader be (record db { bg_compaction_scheduled = false })
        h.1

  -- A call of the background thread that is owed runs with no other call owed, and whenever it
  -- returns, the environment owes a call exactly when one is marked as scheduled, and no work is
  -- left without one unless the database shuts down or an error stopped it. The other threads and
  -- `DoCompactionWork` are only asked to schedule nothing while a call runs.
  pub bg_work-OneCall :
      (db db' : DbImpl W Key Mem)
      → OneCall db
      → bg_work reader be db ≡ some db'
      → (db.owed_calls ≡ 1) × (OneCall db' × IsServiced reader be db')
  unfolding bg_work background_call
  bg_work-OneCall db db' h e =
      let begun = record db { owed_calls = db.owed_calls - 1 } in
      let inner = assert-eq-some db.bg_compaction_scheduled _ db' e in
      let marked = assert-true db.bg_compaction_scheduled _ db' e in
      let (db₁, ran, same) = >>=-eq-some (guarded_compaction reader be begun) _ inner in
      let running = guarded_compaction-IsRunning begun db₁ (marked, ground arith) ran in
      (
        ground arith,
        subst (λ t. OneCall t × IsServiced reader be t)
            (from_some (end_call reader be db₁) db' same) (end_call-OneCall db₁ running),
      )

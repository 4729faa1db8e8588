-- ===== src/Db/Schedule/Cancel.antt =====
-- The second read of `manual_compaction_` in `BackgroundCompaction`, behind the compaction.
use level_db.Prelude.{
  ◌||◌, not, is_some, ℕ, ◌≡◌, refl, ap, ◌∙◌, true, none, some, arith, if◌then◌else◌, ◌>>=◌,
}
use level_db.Status.{Status, ok}
use level_db.Decimal.{NumberReader}
use level_db.Db.{DbImpl, Backend, CompactionState, numbers_of, erase_all}
use level_db.Db.Obsolete.{delete_obsolete_files}
use level_db.Db.Obsolete.Kept.{delete_obsolete_files_lem}
use level_db.Db.Level0.{record_background_error, compact_memtable}
use level_db.Db.Schedule.{
  cleanup_compaction, merge_inputs, run_compaction, finish_manual, start_manual,
  manual_compaction_step, last_key_of, compact_tables, background_compaction,
}

module _ {W File Lock Logger Key Mem Compaction : Type 0} (reader : NumberReader)
    (be : Backend W File Lock Logger Key Mem Compaction) where
  -- The compaction has left a builder, or no file.
  abbrev pub IsClosed : CompactionState File Key → Type 0
  IsClosed compact = (compact.builder || not (is_some compact.outfile)) ≡ true

  merge_inputs_manual :
      (c : Compaction) (db : DbImpl W Key Mem)
      → IsClosed (be.do_compaction_work c db).0
      → (be.do_compaction_work c db).2.manual_compaction ≡ none
      → (r : Status × DbImpl W Key Mem) × (merge_inputs reader be c db ≡ some r)
        × (r.1.manual_compaction ≡ none)
  unfolding merge_inputs cleanup_compaction record_background_error
  merge_inputs_manual c db closed h =
      let (compact, s, db₁) = be.do_compaction_work c db in
      let db₂ = if ok s then db₁ else record_background_error reader be db₁ s in
      let db₃ : DbImpl W Key Mem = record db₂ {
        pending_outputs = erase_all (numbers_of compact.outputs) db₂.pending_outputs;
      } in
      let released : DbImpl W Key Mem = record db₃ { world = be.release_inputs c db₃.world } in
      (
        (s, delete_obsolete_files reader be released),
        rw closed refl,
        ap (λ d. d.manual_compaction) (delete_obsolete_files_lem reader be released) ∙ ground arith,
      )

  finish_manual-none :
      (k : Key) (r : Status × DbImpl W Key Mem)
      → r.1.manual_compaction ≡ none
      → finish_manual reader be k r ≡ none
  unfolding finish_manual
  finish_manual-none k (s, db) h = rw (h, ◌>>=◌) refl

  -- If a manual compaction has inputs, and its request gives up while the compaction releases the
  -- mutex, so that `manual_compaction_` is null when the work is over, and the work leaves no file
  -- without a builder, then the background thread
  -- dereferences the null pointer, whatever the status of the work is.
  pub background_compaction_null :
      (db : DbImpl W Key Mem) (a : ℕ) (c : Compaction)
      → db.imm ≡ none
      → db.manual_compaction ≡ some a
      → (start_manual reader be a db).0 ≡ some c
      → IsClosed (be.do_compaction_work c (start_manual reader be a db).1).0
      → (be.do_compaction_work c (start_manual reader be a db).1).2.manual_compaction ≡ none
      → background_compaction reader be db ≡ none
  unfolding background_compaction compact_tables manual_compaction_step run_compaction
  background_compaction_null db a c idle manual inputs closed cancelled =
      let started = (start_manual reader be a db).1 in
      let (r, ran, null) = merge_inputs_manual c started closed cancelled in
      ap
        (λ m.
          if is_some m
          then compact_memtable reader be db
          else compact_tables reader be db.manual_compaction db)
        idle
      ∙ ap (λ m. compact_tables reader be m db) manual
      ∙ ap
          (λ c'.
            run_compaction reader be true c' started
            >>= finish_manual reader be (last_key_of reader be c'))
          inputs
      ∙ rw ran (finish_manual-none (last_key_of reader be (some c)) r null)

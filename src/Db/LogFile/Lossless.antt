-- ===== src/Db/LogFile/Lossless.antt =====
-- `RecoverLogFile` on a log whose records are all whole batches: where each batch is found when the
-- call has ended with success.
use level_db.Prelude.{
  ℕ, ◌<◌, ◌≡◌, ◌⊎◌, inl, inr, refl, sym, ap, subst, ◌∙◌, Bool, true, false, ◌&&◌, ◌==◌, List, [],
  ◌∷◌, Option, none, some, Bytes, ◌>>=◌, arith, if-true, if-false, Bool-cases,
}
use level_db.Status.{Status, ok_status, ok}
use level_db.Decimal.{NumberReader}
use level_db.Coding.{Coding}
use level_db.FileName.{log_file_name}
use level_db.Db.{DbImpl, Backend}
use level_db.Db.Level0.Total.{write_level0_table_total}
use level_db.Db.Level0.Saves.{Saves, written-Saves}
use level_db.Db.LogFile.{
  Recovery, Replay, level0_written, reuse_log, flush_rest, flush_current, finish_log, replay_log,
  recover_log_file,
}
use level_db.Db.LogFile.Entries.{Entry, EncodeAll, add_entries, replayed, replayed-some}
use level_db.Db.LogFile.Segments.{Replayed, replay_records-Replayed}
use level_db.Db.LogFile.Restored.{
  Restored, Restored-stored, Restored-written, Restored-reused, reuse_log_cases, kept_db,
  finish_log_stopped,
}

module _ {W File Lock Logger Key Mem Compaction : Type 0} (reader : NumberReader) (coding : Coding)
    (be : Backend W File Lock Logger Key Mem Compaction)
    (opens : (f : Bytes) (w : W)
      → ok (be.env.new_writable_file f w).0 ≡ true
      → (file : File) × ((be.env.new_writable_file f w).1 ≡ some file))
    (fills : (file : File) (w : W)
      → ok (be.tables.finish file w).0 ≡ true
      → 0 < be.tables.file_size file (be.tables.finish file w).1)
    (counts : (w : W) → 0 < (be.new_file_number w).0) where
  -- The end of the log with the batches that are not stored yet.
  flush_current-Restored :
      (es : List Entry) (r₀ r : Replay W Key Mem) (db : DbImpl W Key Mem) (rest : List Entry)
      (h : Replayed reader coding be [] es r₀ r)
      → ok r.status ≡ true
      → h.rest ≡ rest
      → (r' : Replay W Key Mem) × (flush_current reader coding be
            (replayed reader coding be rest none)
            (record r { db = db })
          ≡ some r')
        × ((ok r'.status ≡ false) ⊎ Restored reader coding be es r₀.recovery r'.recovery r'.db)
  unfolding flush_current
  flush_current-Restored es r₀ r db [] h good left =
      (record r { db = db }, refl, inr (Restored-stored reader coding be es r₀ r db h left))
  flush_current-Restored es r₀ r db (e ∷ rest) h good left =
      let mem = add_entries reader coding be (e ∷ rest) be.empty_mem in
      let ((s, edit, db'), written) =
        write_level0_table_total reader be opens fills counts mem r.recovery.edit none db in
      (
        level0_written reader coding be r.compactions (record r { db = db }) (s, edit, db'),
        ap (λ c. flush_current reader coding be c (record r { db = db }))
              (replayed-some reader coding be e rest none)
            ∙ if-true (ok r.status) _ _ good
            ∙ ap
                (λ o. o >>= λ u.
                  some (level0_written reader coding be r.compactions (record r { db = db }) u))
                written,
        elim (Bool-cases (ok s)) [
          | inr bad ↦ inl bad
          | inl fine ↦
              let (more, grown, saves) =
                written-Saves reader be mem r.recovery.edit edit none db db' s written fine in
              inr (
                Restored-written reader coding be es r₀ r s edit more db' h grown (
                  subst (λ t. Saves reader be (add_entries reader coding be t be.empty_mem) more)
                    (sym left) saves))
        ],
      )

  finish_log-Restored :
      (fname : Bytes) (n : ℕ) (last : Bool) (es : List Entry) (r₀ r : Replay W Key Mem)
      (h : Replayed reader coding be [] es r₀ r)
      → r₀.db.log_open ≡ false
      → r₀.db.mem ≡ none
      → r₀.compactions ≡ 0
      → ok r.status ≡ true
      → (r' : Replay W Key Mem) × (finish_log reader coding be fname n last r ≡ some r')
        × ((ok r'.status ≡ false) ⊎ Restored reader coding be es r₀.recovery r'.recovery r'.db)
  unfolding finish_log flush_rest
  finish_log-Restored fname n last es r₀ r h closed empty fresh good =
      let reuses = ok r.status && (r.db.reuse_logs && (last && (r.compactions == 0))) in
      let ends = λ (o : Option (Replay W Key Mem)). o >>= flush_rest reader coding be in
      let flushing = λ (db : DbImpl W Key Mem).
        λ (c : Option Mem). flush_current reader coding be c (record r { db = db }) in
      elim (Bool-cases reuses) [
        | inr e ↦
            let (r', run, out) = flush_current-Restored es r₀ r r.db h.rest h good refl in
            (r', ap ends (if-false reuses _ _ e) ∙ ap (flushing r.db) h.left ∙ run, out)
        | inl e ↦
            let same = kept_db reader coding be es r₀ r h fresh (ground (arith, e)) in
            let chosen = if-true reuses (reuse_log reader coding be fname n r) (some r) e in
            elim (reuse_log_cases reader coding be fname n r (ap (λ d. d.log_open) same ∙ closed)
              (ap (λ d. d.mem) same ∙ empty)) [
                | inl (w, run) ↦
                    let db = record (r.db) { world = w } in
                    let (r', run', out) = flush_current-Restored es r₀ r db h.rest h good refl in
                    (r', ap ends (chosen ∙ run) ∙ ap (flushing db) h.left ∙ run', out)
                | inr (db, run, held) ↦ (
                  record r { current = none; db = db },
                  ap ends (chosen ∙ run),
                  inr (Restored-reused reader coding be es r₀ r db h held),
                )
              ]
      ]

  -- If a log that can be opened consists of whole batches, apart from records that are too short
  -- for one, then `RecoverLogFile`, for any size of the write buffer and whether it reuses the log
  -- or not, returns an error, or has every batch of the log in order: a prefix is stored in tables
  -- that were added to the edit, which is marked to be saved, and the rest, if there is one, is
  -- the contents of `mem_`. The largest sequence number is recorded. File numbers are positive, a
  -- file that is opened with success is there, and a table that is finished with success is not
  -- empty.
  pub recover_log_file-Restored :
      (n : ℕ) (last_log : Bool) (recovery : Recovery Key) (db : DbImpl W Key Mem) (fname : Bytes)
      (file : File) (es : List Entry)
      → log_file_name db.dbname n ≡ some fname
      → ok (be.env.new_sequential_file fname db.world).0 ≡ true
      → (be.env.new_sequential_file fname db.world).1 ≡ some file
      → EncodeAll reader coding be
          (be.log_records file (be.env.new_sequential_file fname db.world).2)
          es
      → db.log_open ≡ false
      → db.mem ≡ none
      → (r : Status × Recovery Key × DbImpl W Key Mem) × (recover_log_file reader coding be n
            last_log recovery db
          ≡ some r)
        × ((ok r.0 ≡ false) ⊎ Restored reader coding be es recovery r.1 r.2)
  unfolding recover_log_file replay_log
  recover_log_file-Restored n last_log recovery db fname file es named opened got logged closed
        empty =
      let db₁ = record db { world = (be.env.new_sequential_file fname db.world).2 } in
      let start : Replay W Key Mem = record {
        recovery = recovery;
        current = none;
        compactions = 0;
        status = ok_status;
        db = db₁;
      } in
      let (r, run, out) =
        replay_records-Replayed reader coding be opens fills counts (be.log_records file db₁.world)
          es [] start logged refl refl in
      elim (Bool-cases (ok r.status)) [
        | inr bad ↦
            let (r', run', still) = finish_log_stopped reader coding be fname n last_log r bad in
            ((r'.status, r'.recovery, r'.db), rw (named, opened, got, run, run') refl, inl still)
        | inl good ↦ elim out [
          | inl bad ↦ absurd (cc (good, bad))
          | inr h ↦
              let (r', run', out') =
                finish_log-Restored fname n last_log es start r h closed empty refl good in
              ((r'.status, r'.recovery, r'.db), rw (named, opened, got, run, run') refl, out')
        ]
      ]

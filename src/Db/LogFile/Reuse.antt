-- ===== src/Db/LogFile/Reuse.antt =====
-- Opening the last log again, with its memtable.
use level_db.Prelude.{
  is_some, bind_assoc, assert-of_true, if-true, if-false, ℕ, ◌≡◌, refl, ap, ◌∙◌, Bool, true, false,
  ◌&&◌, not, List, ◌∷◌, Option, none, some, Bytes, ◌>>=◌,
}
use level_db.Status.{Status, ok_status, ok}
use level_db.Decimal.{NumberReader}
use level_db.Coding.{Coding}
use level_db.FileName.{log_file_name}
use level_db.Db.{DbImpl, Backend}
use level_db.Db.Level0.{write_level0_table}
use level_db.Db.LogFile.{
  Recovery, Replay, mem_or_new, reuse_log, flush_rest, flush_current, finish_log, replay_log,
  recover_log_file, level0_written,
}
use level_db.Db.LogFile.Entries.{
  Entry, EncodeAll, Fits, add_entries, behind, largest_of, replay_records-EncodeAll, replayed-none,
  replayed-some,
}

module _ {W File Lock Logger Key Mem Compaction : Type 0} (reader : NumberReader) (coding : Coding)
    (be : Backend W File Lock Logger Key Mem Compaction) where
  open be use {env}

  -- What `RecoverLogFile` answers.
  abbrev returned : Replay W Key Mem → Option (Status × Recovery Key × DbImpl W Key Mem)
  returned r = some (r.status, r.recovery, r.db)

  -- The variables before the loop.
  abbrev start : Recovery Key → DbImpl W Key Mem → Replay W Key Mem
  start recovery db = record {
    recovery = recovery;
    current = none;
    compactions = 0;
    status = ok_status;
    db = db;
  }

  reuse_log_lem :
      (fname : Bytes) (n : ℕ) (r : Replay W Key Mem)
      → ok (env.get_file_size fname r.db.world).0 ≡ true
      → ok (env.new_appendable_file fname (env.get_file_size fname r.db.world).2).0 ≡ true
      → r.db.log_open ≡ false
      → r.db.mem ≡ none
      → reuse_log reader coding be fname n r
        ≡ some (record r {
          current = none;
          db = record (r.db) {
            world = (env.new_appendable_file fname (env.get_file_size fname r.db.world).2).2;
            log_open = true;
            logfile_number = n;
            mem = some (mem_or_new be.empty_mem r.current);
          };
        })
  unfolding reuse_log
  reuse_log_lem fname n r sized opened closed empty =
      assert-of_true (not r.db.log_open) _ (ap not closed)
      ∙ assert-of_true (not (is_some r.db.mem)) _ (ap (λ m. not (is_some m)) empty)
      ∙ ap some (if-true _ _ _ sized ∙ if-true _ _ _ opened)

  -- `recover_log_file` on a log of whole batches is the end of the function behind the loop.
  recover_log_file-Entries :
      (n : ℕ) (last_log : Bool) (recovery : Recovery Key) (db : DbImpl W Key Mem) (fname : Bytes)
      (file : File) (es : List Entry)
      → log_file_name db.dbname n ≡ some fname
      → ok (env.new_sequential_file fname db.world).0 ≡ true
      → (env.new_sequential_file fname db.world).1 ≡ some file
      → EncodeAll reader coding be
          (be.log_records file (env.new_sequential_file fname db.world).2)
          es
      → Fits reader coding be db.write_buffer_size es be.empty_mem
      → recover_log_file reader coding be n last_log recovery db ≡ (
          finish_log reader coding be fname n last_log (
            behind reader coding be es
              (start recovery (record db { world = (env.new_sequential_file fname db.world).2 })))
          >>= λ r. some (r.status, r.recovery, r.db))
  unfolding recover_log_file replay_log
  recover_log_file-Entries n last_log recovery db fname file es named opened got logged fits =
      let db₁ = record db { world = (env.new_sequential_file fname db.world).2 } in
      let run =
        replay_records-EncodeAll reader coding be (be.log_records file db₁.world) es
          (start recovery db₁) logged refl fits in
      rw (named, opened, got, run) refl

  -- If the last log is read with success, consists of whole batches, apart from records that are
  -- too short for one, and fits one memtable, and `reuse_logs` is set and the file can be opened
  -- for appending, then `RecoverLogFile` succeeds and makes the log the current one: `mem_` holds
  -- exactly the records of the batches, added in order under their sequence numbers, and the
  -- largest of these numbers is recorded.
  pub recover_log_file_reused :
      (n : ℕ) (recovery : Recovery Key) (db : DbImpl W Key Mem) (fname : Bytes) (file : File)
      (es : List Entry)
      → log_file_name db.dbname n ≡ some fname
      → ok (env.new_sequential_file fname db.world).0 ≡ true
      → (env.new_sequential_file fname db.world).1 ≡ some file
      → EncodeAll reader coding be
          (be.log_records file (env.new_sequential_file fname db.world).2)
          es
      → Fits reader coding be db.write_buffer_size es be.empty_mem
      → db.reuse_logs ≡ true
      → db.log_open ≡ false
      → db.mem ≡ none
      → ok (env.get_file_size fname (env.new_sequential_file fname db.world).2).0 ≡ true
      → ok
          (env.new_appendable_file fname
            (env.get_file_size fname (env.new_sequential_file fname db.world).2).2).0
        ≡ true
      → (db' : DbImpl W Key Mem) × (recover_log_file reader coding be n true recovery db
          ≡ some (
            ok_status,
            record recovery { max_sequence = largest_of recovery.max_sequence es },
            db',
          ))
        × (db'.mem ≡ some (add_entries reader coding be es be.empty_mem))
        × (db'.logfile_number ≡ n)
        × (db'.log_open ≡ true)
  unfolding finish_log flush_rest flush_current
  recover_log_file_reused n recovery db fname file es named opened got logged fits reuse closed
        empty sized appended =
      let db₁ = record db { world = (env.new_sequential_file fname db.world).2 } in
      let r = behind reader coding be es (start recovery db₁) in
      let chosen : (db.reuse_logs && true) ≡ true = ap (λ b. b && true) reuse in
      (
        _,
        recover_log_file-Entries n true recovery db fname file es named opened got logged fits
            ∙ ap
                (λ o.
                  o >>= flush_rest reader coding be >>= λ r'. some (r'.status, r'.recovery, r'.db))
                (if-true _ _ _ chosen ∙ reuse_log_lem fname n r sized appended closed empty),
        ap some (replayed-none reader coding be es),
        refl,
        refl,
      )

  and_unit : (b : Bool) → (b && true) ≡ b
  and_unit true = refl
  and_unit false = refl

  -- If the log is not reused, and holds a batch, then `RecoverLogFile` writes a table of exactly
  -- the records of the batches, and its result is that of `WriteLevel10Table`.
  recover_log_file_written :
      (n : ℕ) (last_log : Bool) (recovery : Recovery Key) (db : DbImpl W Key Mem) (fname : Bytes)
      (file : File) (e : Entry) (es : List Entry)
      → log_file_name db.dbname n ≡ some fname
      → ok (env.new_sequential_file fname db.world).0 ≡ true
      → (env.new_sequential_file fname db.world).1 ≡ some file
      → EncodeAll reader coding be
          (be.log_records file (env.new_sequential_file fname db.world).2)
          (e ∷ es)
      → Fits reader coding be db.write_buffer_size (e ∷ es) be.empty_mem
      → (db.reuse_logs && last_log) ≡ false
      → recover_log_file reader coding be n last_log recovery db ≡ (
          write_level0_table reader be
            (add_entries reader coding be (e ∷ es) be.empty_mem)
            recovery.edit
            none
            (record db { world = (env.new_sequential_file fname db.world).2 })
          >>= λ t. some (
            t.0,
            record {
              save_manifest = true;
              edit = t.1;
              max_sequence = largest_of recovery.max_sequence (e ∷ es);
            },
            t.2,
          ))
  unfolding finish_log flush_rest flush_current level0_written
  recover_log_file_written n last_log recovery db fname file e es named opened got logged fits
        not_reused =
      let db₁ = record db { world = (env.new_sequential_file fname db.world).2 } in
      let r = behind reader coding be (e ∷ es) (start recovery db₁) in
      let not_chosen : (db.reuse_logs && (last_log && true)) ≡ false =
        ap (λ b. db.reuse_logs && b) (and_unit last_log) ∙ not_reused in
      recover_log_file-Entries n last_log recovery db fname file (e ∷ es) named opened got logged
        fits
      ∙ ap (λ o. o >>= flush_rest reader coding be >>= returned) (if-false _ _ _ not_chosen)
      ∙ ap (λ c. flush_current reader coding be c r >>= returned)
          (replayed-some reader coding be e es none)
      ∙ bind_assoc
          (write_level0_table reader be (add_entries reader coding be (e ∷ es) be.empty_mem)
            recovery.edit none db₁)
          (λ written. some (level0_written reader coding be 0 r written)) returned

-- ===== src/Db/Open/Lossless.antt =====
-- `DB::Open` on an intact database whose logs are logs of whole batches.
use level_db.Prelude.{
  ℕ, ◌≡◌, ◌⊎◌, ◌<◌, inl, inr, refl, ap, ◌∙◌, true, false, is_some, List, All, Option, none, some,
  Bytes, ◌>>=◌, Option-cases, >>=-eq-some,
}
use level_db.Status.{Status, ok}
use level_db.Decimal.{NumberReader}
use level_db.Coding.{Coding}
use level_db.Builder.Frame.{IsKept}
use level_db.Db.{DbImpl, Backend}
use level_db.Db.Level0.Frame.{IsReady}
use level_db.Db.LogFile.Entries.{Entry}
use level_db.Db.Startup.{sort, finish_recovery}
use level_db.Db.Startup.Lossless.{IsReadable, contents_of, recover_logs-Restored}
use level_db.Db.Startup.Intact.{
  IsIntact, children, found, begun, listed_db, recover-IsIntact, finish_recovery-Restored,
}
use level_db.Db.Open.{no_recovery, ensure_log, db_open}
use level_db.Db.Open.Returns.{db_open_returns}
use level_db.Db.Open.Logged.{Durable}
use level_db.Db.Open.Durable.{opened-Durable}

module _ {W File Lock Logger Key Mem Compaction : Type 0} (reader : NumberReader) (coding : Coding)
    (be : Backend W File Lock Logger Key Mem Compaction)
    (opens : (f : Bytes) (w : W)
      → ok (be.env.new_writable_file f w).0 ≡ true
      → (file : File) × ((be.env.new_writable_file f w).1 ≡ some file))
    (fills : (file : File) (w : W)
      → ok (be.tables.finish file w).0 ≡ true
      → 0 < be.tables.file_size file (be.tables.finish file w).1)
    (counts : (w : W) → 0 < (be.new_file_number w).0) (dbname : Bytes) (There : W → Type 0)
    (contents : ℕ → List Entry) (kept : IsKept be.env be.tables dbname There)
    (numbered : (w : W) → There w → There (be.new_file_number w).1)
    (used : (n : ℕ) (w : W) → There w → There (be.mark_file_number_used n w))
    (others_ready : (db : DbImpl W Key Mem)
      → IsReady reader be dbname There db
      → IsReady reader be dbname There (be.others db))
    (mem_kept : (db : DbImpl W Key Mem) (m : Mem)
      → db.mem ≡ some m
      → (be.others db).mem ≡ some m) where
  some_kept : (db : DbImpl W Key Mem) → is_some db.mem ≡ true → is_some (be.others db).mem ≡ true
  some_kept db h = elim (Option-cases db.mem) [
    | inl e ↦ absurd (cc (h, ap is_some e))
    | inr (m, e) ↦ ap is_some (mem_kept db m e)
  ]

  -- If the database exists and is intact, and its logs can be read and consist of whole batches
  -- and of records that are too short for one, then `Open`, on a new `DBImpl` without a log or a
  -- memtable, returns: an error and no database, or a database from which no batch of the logs is
  -- missing. A prefix of the batches, in order, is in synced tables, with which an edit begins
  -- that the version set has installed with success, and the rest is the contents of `mem_`. File
  -- numbers are positive, a file that is opened with success is there, a table that is finished
  -- with success is not empty, and the work on table files, the file numbers and the other threads
  -- leave the logs and the database that is being opened alone.
  pub db_open-Durable :
      (db : DbImpl W Key Mem)
      → IsIntact reader coding be db
      → All (IsReadable reader coding be dbname There contents) (sort (found reader coding be db).1)
      → There (children reader coding be db).2
      → db.dbname ≡ dbname
      → db.log_open ≡ false
      → db.mem ≡ none
      → (r : Status × Option (DbImpl W Key Mem)) × (db_open reader coding be db ≡ some r)
        × (((ok r.0 ≡ false) × (r.1 ≡ none))
            ⊎ ((db' : DbImpl W Key Mem) × (r.1 ≡ some db')
                × Durable reader coding be
                    (contents_of contents (sort (found reader coding be db).1))
                    db'))
  unfolding db_open
  db_open-Durable db intact readable there named closed empty =
      let start = no_recovery reader coding be in
      let logs = sort (found reader coding be db).1 in
      let (t, ran, out) =
        recover_logs-Restored reader coding be opens fills counts dbname There contents kept
          numbered used others_ready logs (begun reader coding be start db)
          (listed_db reader coding be db) readable
          (record { there = there; named = named; closed = closed; empty = empty }) in
      let recovered =
        recover-IsIntact reader coding be start db intact
        ∙ ap (λ o. o >>= λ u. some (finish_recovery reader coding be u)) ran in
      let t' = finish_recovery reader coding be t in
      let (r, run, _) = db_open_returns reader coding be some_kept counts db t' recovered in
      let (logged, l, end) = >>=-eq-some (ensure_log reader coding be t') _ (rw recovered at run) in
      (
        r,
        run,
        opened-Durable reader coding be mem_kept (contents_of contents logs)
            (begun reader coding be start db) t' logged r refl
            (finish_recovery-Restored reader coding be (contents_of contents logs)
              (begun reader coding be start db) t out)
            l end,
      )

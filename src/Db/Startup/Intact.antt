-- ===== src/Db/Startup/Intact.antt =====
-- `Recover` on a database that exists and misses no file: it comes to the replay of the logs.
use level_db.Prelude.{
  ℕ, ◌≡◌, ◌⊎◌, inl, inr, ap, ◌∙◌, Bool, true, false, not, ◌||◌, ◌==◌, List, [], Option, some, Bytes,
  length, ltb, ◌>>=◌, Bool-cases, if-true, if-false, assert-of_true,
}
use level_db.Status.{Status, ok}
use level_db.Decimal.{NumberReader}
use level_db.Coding.{Coding}
use level_db.FileName.{lock_file_name}
use level_db.Db.{DbImpl, Backend}
use level_db.Db.LogFile.{Recovery}
use level_db.Db.LogFile.Entries.{Entry}
use level_db.Db.LogFile.Restored.{Restored}
use level_db.Db.Startup.{
  sort, find_logs, recover_logs, finish_recovery, replay_logs, recover_current, recover_locked,
  recover,
}

module _ {W File Lock Logger Key Mem Compaction : Type 0} (reader : NumberReader) (coding : Coding)
    (be : Backend W File Lock Logger Key Mem Compaction) where
  -- What the calls before the replay answer, one after the other.
  abbrev pub lock : DbImpl W Key Mem → Status × Option Lock × W
  lock db = be.env.lock_file (lock_file_name db.dbname) (be.env.create_dir db.dbname db.world).1

  abbrev pub versions : DbImpl W Key Mem → Status × Bool × W
  versions db = be.recover_versions (lock db).2

  abbrev pub children : DbImpl W Key Mem → Status × List Bytes × W
  children db = be.env.get_children db.dbname (versions db).2

  -- The live files that are missing, and the logs to be replayed.
  abbrev pub found : DbImpl W Key Mem → List ℕ × List ℕ
  found db =
      find_logs reader coding be (be.log_number (versions db).2)
        (be.prev_log_number (versions db).2) (children db).1 (be.live_files (children db).2, [])

  -- The database is there, can be locked, read and listed, and no live file is missing.
  pub record IsIntact (db : DbImpl W Key Mem) : Type 0 where
    pub free : db.db_locked ≡ false
    pub locks : ok (lock db).0 ≡ true
    pub current : be.env.file_exists (be.current_file_name db.dbname) (lock db).2 ≡ true
    pub versioned : ok (versions db).0 ≡ true
    pub listed : ok (children db).0 ≡ true
    pub complete : (found db).0 ≡ []

  -- The state at the first log.
  abbrev pub begun : Recovery Key → DbImpl W Key Mem → Recovery Key
  begun recovery db = record recovery { save_manifest = recovery.save_manifest || (versions db).1 }

  abbrev pub listed_db : DbImpl W Key Mem → DbImpl W Key Mem
  listed_db db = record db { db_locked = true; world = (children db).2 }

  pub recover-IsIntact :
      (recovery : Recovery Key) (db : DbImpl W Key Mem)
      → IsIntact db
      → recover reader coding be recovery db ≡ (
          recover_logs reader coding be (sort (found db).1) (begun recovery db) (listed_db db)
          >>= λ r. some (finish_recovery reader coding be r))
  unfolding recover recover_locked recover_current replay_logs
  recover-IsIntact recovery db h =
      assert-of_true (not db.db_locked) _ (ap not h.free)
      ∙ if-true (ok (lock db).0) _ _ h.locks
      ∙ if-false (not (be.env.file_exists (be.current_file_name db.dbname) (lock db).2)) _ _
          (ap not h.current)
      ∙ if-true (ok (versions db).0) _ _ h.versioned
      ∙ if-false (not (ok (children db).0)) _ _ (ap not h.listed)
      ∙ if-false (not (length (found db).0 == 0)) _ _
          (ap (λ (l : List ℕ). not (length l == 0)) h.complete)

  -- The last sequence number is set at the end; the batches stay where they are.
  pub finish_recovery-Restored :
      (es : List Entry) (a : Recovery Key) (r : Status × Recovery Key × DbImpl W Key Mem)
      → (ok r.0 ≡ false) ⊎ Restored reader coding be es a r.1 r.2
      → (ok (finish_recovery reader coding be r).0 ≡ false)
        ⊎ Restored reader coding be es a
            (finish_recovery reader coding be r).1
            (finish_recovery reader coding be r).2
  unfolding finish_recovery
  finish_recovery-Restored es a (s, b, db) h = elim (Bool-cases (ok s)) [
    | inr e ↦ rw e (inl e)
    | inl e ↦ elim h [
      | inl bad ↦ absurd (cc (e, bad))
      | inr k ↦ elim (Bool-cases (ltb (be.last_sequence db.world) b.max_sequence)) [
        | inl f ↦
            rw (e, f)
              (inr (record {
                segs = k.segs;
                rest = k.rest;
                added = k.added;
                all = k.all;
                stored = k.stored;
                edited = k.edited;
                left = k.left;
                largest = k.largest;
                marked = k.marked;
              }))
        | inr f ↦ rw (e, f) (inr k)
      ]
    ]
  ]

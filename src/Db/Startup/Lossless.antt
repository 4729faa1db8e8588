-- ===== src/Db/Startup/Lossless.antt =====
-- The logs of `Recover`, one after the other, where each is a log of whole batches.
use level_db.Prelude.{
  ℕ, ◌≡◌, ◌<◌, ◌⊎◌, inl, inr, refl, ap, sym, subst, ◌∙◌, Bool, true, false, List, [], ◌∷◌, ◌++◌,
  append-nil, All, ◌==◌, some, Bytes, length, if◌then◌else◌, ◌>>=◌, Bool-cases, arith, if-true,
  if-false,
}
use level_db.Status.{Status, ok_status, ok}
use level_db.Decimal.{NumberReader}
use level_db.Coding.{Coding}
use level_db.FileName.{log_file_name}
use level_db.Builder.Frame.{IsKept}
use level_db.Db.{DbImpl, Backend}
use level_db.Db.Level0.Frame.{IsReady}
use level_db.Db.LogFile.{Recovery, recover_log_file}
use level_db.Db.LogFile.Entries.{Entry, EncodeAll}
use level_db.Db.LogFile.Segments.{Stored}
use level_db.Db.LogFile.Restored.{Restored}
use level_db.Db.LogFile.Lossless.{recover_log_file-Restored}
use level_db.Db.LogFile.Ready.{recover_log_file-IsReady}
use level_db.Db.Startup.{recover_logs}
use level_db.Db.Startup.Joined.{Restored-append, rest_nil, Restored-world}

-- All batches of the logs, in order.
abbrev pub contents_of : (ℕ → List Entry) → List ℕ → List Entry
contents_of contents [] = []
contents_of contents (n ∷ logs) = contents n ++ contents_of contents logs

module _ {W File Lock Logger Key Mem Compaction : Type 0} (reader : NumberReader) (coding : Coding)
    (be : Backend W File Lock Logger Key Mem Compaction) where
  recover_logs_step :
      (n : ℕ) (rest : List ℕ) (recovery : Recovery Key) (db : DbImpl W Key Mem)
      (t : Status × Recovery Key × DbImpl W Key Mem)
      → recover_log_file reader coding be n (length rest == 0) recovery db ≡ some t
      → recover_logs reader coding be (n ∷ rest) recovery db ≡ (
          if ok t.0
          then recover_logs reader coding be rest t.1
              (record (t.2) { world = be.mark_file_number_used n t.2.world })
          else some t)
  unfolding recover_logs
  recover_logs_step n rest recovery db t run =
      ap
        (λ o. o >>= λ u.
          if ok u.0
          then recover_logs reader coding be rest u.1
              (record (u.2) { world = be.mark_file_number_used n u.2.world })
          else some u)
        run

-- A log that can be read as long as the files are there: it consists of whole batches.
pub record IsReadable {W File Lock Logger Key Mem Compaction : Type 0} (reader : NumberReader)
    (coding : Coding) (be : Backend W File Lock Logger Key Mem Compaction) (dbname : Bytes)
    (There : W → Type 0) (contents : ℕ → List Entry) (n : ℕ) : Type 0 where
  pub fname : Bytes
  pub named : log_file_name dbname n ≡ some fname
  pub opens : (w : W) → There w → ok (be.env.new_sequential_file fname w).0 ≡ true
  pub reads :
      (w : W)
      → There w
      → (file : File) × ((be.env.new_sequential_file fname w).1 ≡ some file)
        × EncodeAll reader coding be
            (be.log_records file (be.env.new_sequential_file fname w).2)
            (contents n)
  pub stays : (w : W) → There w → There (be.env.new_sequential_file fname w).2

module _ {W File Lock Logger Key Mem Compaction : Type 0} (reader : NumberReader) (coding : Coding)
    (be : Backend W File Lock Logger Key Mem Compaction)
    (opens : (f : Bytes) (w : W)
      → ok (be.env.new_writable_file f w).0 ≡ true
      → (file : File) × ((be.env.new_writable_file f w).1 ≡ some file))
    (fills : (file : File) (w : W)
      → ok (be.tables.finish file w).0 ≡ true
      → 0 < be.tables.file_size file (be.tables.finish file w).1)
    (counts : (w : W) → 0 < (be.new_file_number w).0) (dbname : Bytes) (There : W → Type 0)
    (contents : ℕ → List Entry) (kept : IsKept be.env be.tables dbname There)
    (numbered : (w : W) → There w → There (be.new_file_number w).1)
    (used : (n : ℕ) (w : W) → There w → There (be.mark_file_number_used n w))
    (others_ready : (db : DbImpl W Key Mem)
      → IsReady reader be dbname There db
      → IsReady reader be dbname There (be.others db)) where
  one_log :
      (n : ℕ) (last_log : Bool) (recovery : Recovery Key) (db : DbImpl W Key Mem)
      → IsReadable reader coding be dbname There contents n
      → IsReady reader be dbname There db
      → (t : Status × Recovery Key × DbImpl W Key Mem) × (recover_log_file reader coding be n
            last_log recovery db
          ≡ some t)
        × ((ok t.0 ≡ false) ⊎ Restored reader coding be (contents n) recovery t.1 t.2)
        × (last_log ≡ false → IsReady reader be dbname There t.2)
  one_log n last_log recovery db log ready =
      let named = ap (λ d. log_file_name d n) ready.named ∙ log.named in
      let (file, got, encoded) = log.reads db.world ready.there in
      let (t, run, out) =
        recover_log_file-Restored reader coding be opens fills counts n last_log recovery db
          log.fname file (contents n) named (log.opens db.world ready.there) got encoded
          ready.closed ready.empty in
      (
        t,
        run,
        out,
        λ more.
            recover_log_file-IsReady reader coding be dbname There kept numbered others_ready n
              recovery db log.fname file t named (log.opens db.world ready.there) got
              (log.stays db.world ready.there)
              (subst (λ b. recover_log_file reader coding be n b recovery db ≡ some t) more run)
              ready,
      )

  -- If every log can be read and consists of whole batches and of records that are too short for
  -- one, and the database has no open log and no memtable, then the recovery of the logs, for any
  -- size of the write buffer, returns an error, or it has all the batches of all logs in order: a
  -- prefix is stored in synced tables that were added to the edit, and the rest, which the last
  -- log ends with, is the contents of `mem_`. The largest sequence number is recorded. File
  -- numbers are positive, a file that is opened with success is there, a table that is finished
  -- with success is not empty, and the work on table files, the file numbers and the other threads
  -- leave the logs and the members of the database that is being opened alone.
  pub recover_logs-Restored :
      (logs : List ℕ) (recovery : Recovery Key) (db : DbImpl W Key Mem)
      → All (IsReadable reader coding be dbname There contents) logs
      → IsReady reader be dbname There db
      → (r : Status × Recovery Key × DbImpl W Key Mem) × (recover_logs reader coding be logs
            recovery db
          ≡ some r)
        × ((ok r.0 ≡ false)
            ⊎ Restored reader coding be (contents_of contents logs) recovery r.1 r.2)
  unfolding recover_logs
  recover_logs-Restored [] recovery db _ ready = (
    (ok_status, recovery, db),
    refl,
    inr (record {
      segs = [];
      rest = [];
      added = [];
      all = refl;
      stored = Stored.done;
      edited = sym (append-nil recovery.edit);
      left = inl refl;
      largest = refl;
      marked = inl (refl, refl);
    }),
  )
  recover_logs-Restored (n ∷ []) recovery db (log, _) ready =
      let (t, run, out, _) = one_log n (length {A = ℕ} [] == 0) recovery db log ready in
      let next = record (t.2) { world = be.mark_file_number_used n t.2.world } in
      let step = recover_logs_step reader coding be n [] recovery db t run in
      elim (Bool-cases (ok t.0)) [
        | inr bad ↦ (t, step ∙ if-false (ok t.0) _ _ bad, inl bad)
        | inl good ↦ (
          (ok_status, t.1, next),
          step ∙ if-true (ok t.0) _ _ good,
          elim out [
            | inl bad ↦ absurd (cc (good, bad))
            | inr h ↦ inr (Restored-world reader coding be (contents n) recovery t.1 t.2 _ h)
          ],
        )
      ]
  recover_logs-Restored (n ∷ m ∷ ms) recovery db (log, more) ready =
      let (t, run, out, stays) = one_log n (length (m ∷ ms) == 0) recovery db log ready in
      let next = record (t.2) { world = be.mark_file_number_used n t.2.world } in
      let step = recover_logs_step reader coding be n (m ∷ ms) recovery db t run in
      elim (Bool-cases (ok t.0)) [
        | inr bad ↦ (t, step ∙ if-false (ok t.0) _ _ bad, inl bad)
        | inl good ↦
            let still = stays (ground arith) in
            let (r, run', out') = recover_logs-Restored (m ∷ ms) t.1 next more (record {
              there = used n t.2.world still.there;
              named = still.named;
              closed = still.closed;
              empty = still.empty;
            }) in
            (
              r,
              step ∙ if-true (ok t.0) _ _ good ∙ run',
              elim out [
                | inl bad ↦ absurd (cc (good, bad))
                | inr h ↦ elim out' [
                  | inl bad ↦ inl bad
                  | inr k ↦ inr (
                      Restored-append reader coding be (contents n) (contents_of contents (m ∷ ms))
                        recovery t.1 r.1 t.2 r.2 h
                        (rest_nil reader coding be dbname There (contents n) recovery t.1 t.2 h
                          still)
                        k)
                ]
              ],
            )
      ]

-- ===== src/Db/Startup.antt =====
-- `DBImpl::NewDb`, `DBImpl::Recover` and `DB::Open`.
pub mod Refusal
pub mod Logs
pub mod Joined
pub mod Lossless
pub mod Intact
pub mod Replays
use level_db.Prelude.{
  is_some, ℕ, zero, suc, ◌+◌, ◌%◌, ◌^◌, Bool, true, false, ◌&&◌, ◌||◌, not, List, [], ◌∷◌, ◌++◌,
  Option, none, some, Bytes, codes, length, ltb, leb, ◌==◌, if◌then◌else◌, ◌>>=◌, assert,
}
use level_db.Status.{Status, ok_status, ok, invalid_argument, corruption}
use level_db.Decimal.{NumberReader, digits}
use level_db.Coding.{Coding}
use level_db.FileName.{
  FileType, parse_file_name, descriptor_file_name, lock_file_name, table_file_name, log_file_name,
}
use level_db.Db.{DbImpl, Backend, Edit, EditCall, erase}
use level_db.Db.CurrentFile.{set_current_file}
use level_db.Db.Obsolete.{delete_obsolete_files}
use level_db.Db.LogFile.{Recovery, recover_log_file}
use level_db.Db.Schedule.{maybe_schedule_compaction}

-- `std::sort`
pub insert_sorted : ℕ → List ℕ → List ℕ
insert_sorted n [] = n ∷ []
insert_sorted n (x ∷ xs) = let rest = insert_sorted n xs in if leb n x then n ∷ x ∷ xs else x ∷ rest

unfoldable pub sort : List ℕ → List ℕ
unfolding insert_sorted
sort [] = []
sort (x ∷ xs) = insert_sorted x (sort xs)

module _ {W File Lock Logger Key Mem Compaction : Type 0} (reader : NumberReader) (coding : Coding)
    (be : Backend W File Lock Logger Key Mem Compaction) where
  open be use {
    env, comparator_name, encode_edit, add_record, write_string_to_file_sync, current_file_name,
    recover_versions, log_number, prev_log_number, live_files, last_sequence, set_last_sequence,
    mark_file_number_used, new_file_number, log_and_apply, others, empty_mem,
  }

  abbrev pub and_then : Status × W → (W → Status × W) → Status × W
  and_then (s, w) next = if ok s then next w else (s, w)

  -- The first manifest is written before CURRENT names it.
  unfoldable pub write_manifest : Bytes → Bytes → Option File → W → Option (Status × W)
  write_manifest dbname manifest opened w = do
    file ← opened
    let edit : Edit Key =
        EditCall.set_comparator_name comparator_name
        ∷ EditCall.set_log_number 0
        ∷ EditCall.set_next_file 2
        ∷ EditCall.set_last_sequence 0
        ∷ []
    let (s, w₁) = and_then (add_record file (encode_edit edit) w) (env.close file)
    if ok s
        then set_current_file env write_string_to_file_sync current_file_name dbname 1 w₁
        else some (s, (env.delete_file manifest w₁).1)

  unfoldable pub new_db : DbImpl W Key Mem → Option (Status × DbImpl W Key Mem)
  unfolding write_manifest
  new_db db = do
    manifest ← descriptor_file_name db.dbname 1
    let (s, opened, w) = env.new_writable_file manifest db.world
    if ok s
        then (do
          r ← write_manifest db.dbname manifest opened w
          some (r.0, record db { world = r.1 }))
        else some (s, record db { world = w })

  is_log : FileType → Bool
  is_log FileType.log_file = true
  is_log _ = false

  -- One round of the loop over the children, behind `ParseFileName`, on the live files that were
  -- not found yet and the logs to be read.
  unfoldable pub find_step : ℕ → ℕ → Option (ℕ × FileType) → List ℕ × List ℕ → List ℕ × List ℕ
  unfolding is_log
  find_step min_log prev_log none found = found
  find_step min_log prev_log (some (number, type)) (expected, logs) = (
    erase number expected,
    if is_log type && (leb min_log number || (number == prev_log))
        then logs ++ number ∷ []
        else logs,
  )

  unfoldable pub find_logs : ℕ → ℕ → List Bytes → List ℕ × List ℕ → List ℕ × List ℕ
  unfolding find_step
  find_logs min_log prev_log [] found = found
  find_logs min_log prev_log (fname ∷ rest) found =
      find_logs min_log prev_log rest
        (find_step min_log prev_log (parse_file_name reader fname) found)

  -- The logs in order; the first failure ends the recovery.
  unfoldable pub recover_logs :
      List ℕ → Recovery Key → DbImpl W Key Mem → Option (Status × Recovery Key × DbImpl W Key Mem)
  recover_logs [] recovery db = some (ok_status, recovery, db)
  recover_logs (n ∷ rest) recovery db = do
    (s, recovery', db') ← recover_log_file reader coding be n (length rest == 0) recovery db
    let db₁ = record db' { world = mark_file_number_used n db'.world }
    let next = recover_logs rest recovery' db₁
    if ok s then next else some (s, recovery', db')

  unfoldable pub finish_recovery :
      Status × Recovery Key × DbImpl W Key Mem → Status × Recovery Key × DbImpl W Key Mem
  finish_recovery (s, recovery, db) =
      if ok s
      then (
        s,
        recovery,
        (if ltb (last_sequence db.world) recovery.max_sequence
            then record db { world = set_last_sequence recovery.max_sequence db.world }
            else db),
      )
      else (s, recovery, db)

  missing_files :
      Recovery Key → DbImpl W Key Mem → List ℕ → Option (Status × Recovery Key × DbImpl W Key Mem)
  unfolding sort digits
  missing_files recovery db expected = elim (sort expected) [
    | [] ↦ none
    | n ∷ _ ↦ do
      name ← table_file_name db.dbname n
      some (
        corruption (digits 20 (length expected) ++ codes " missing files; e.g.") name,
        recovery,
        db,
      )
  ]

  unfoldable pub replay_logs :
      Recovery Key → DbImpl W Key Mem → Option (Status × Recovery Key × DbImpl W Key Mem)
  unfolding find_logs recover_logs finish_recovery missing_files
  replay_logs recovery db =
      let min_log = log_number db.world in
      let prev_log = prev_log_number db.world in
      let (s, filenames, w) = env.get_children db.dbname db.world in
      let db₁ = record db { world = w } in
      let (expected, logs) = find_logs min_log prev_log filenames (live_files w, []) in
      if not (ok s)
      then some (s, recovery, db₁)
      else if not (length expected == 0)
      then missing_files recovery db₁ expected
      else (do r ← recover_logs (sort logs) recovery db₁; some (finish_recovery r))

  -- Behind the checks for CURRENT.
  unfoldable pub recover_current :
      Recovery Key → DbImpl W Key Mem → Option (Status × Recovery Key × DbImpl W Key Mem)
  unfolding replay_logs
  recover_current recovery db =
      let (s, save, w) = recover_versions db.world in
      let recovery' = record recovery { save_manifest = recovery.save_manifest || save } in
      let db' = record db { world = w } in
      if ok s then replay_logs recovery' db' else some (s, recovery', db')

  -- The branch of `create_if_missing`, which ends the recovery in both cases.
  unfoldable pub create_new :
      Recovery Key → DbImpl W Key Mem → Option (Status × Recovery Key × DbImpl W Key Mem)
  unfolding new_db
  create_new recovery db = do
    (s, db') ← new_db db
    some (
        if ok s
        then (
          invalid_argument db.dbname (codes "does not exist (create_if_missing is false)"),
          recovery,
          db',
        )
        else (s, recovery, db'))

  -- The checks for CURRENT, with the lock held.
  unfoldable pub recover_locked :
      Recovery Key → DbImpl W Key Mem → Option (Status × Recovery Key × DbImpl W Key Mem)
  unfolding create_new recover_current
  recover_locked recovery db =
      if not (env.file_exists (current_file_name db.dbname) db.world)
      then (if db.create_if_missing
          then create_new recovery db
          else if db.error_if_exists
          then some (
            invalid_argument (db.dbname ++ codes "exists (error_if_exists is true)") [],
            recovery,
            db,
          )
          else recover_current recovery db)
      else recover_current recovery db

  unfoldable pub recover :
      Recovery Key → DbImpl W Key Mem → Option (Status × Recovery Key × DbImpl W Key Mem)
  unfolding recover_locked
  recover recovery db =
      let w = (env.create_dir db.dbname db.world).1 in
      let (s, lock, w') = env.lock_file (lock_file_name db.dbname) w in
      assert (not db.db_locked) (
        if ok s
        then recover_locked recovery (record db { db_locked = true; world = w' })
        else some (s, recovery, record db { world = w' }))

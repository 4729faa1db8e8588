-- ===== src/Db/Startup/Replays.antt =====
-- Which logs `Recover` replays on an intact database, and in which order.
use level_db.Prelude.{
  ℕ, ◌≡◌, ◌⊎◌, inl, inr, ap, Bool, true, false, not, ◌&&◌, List, [], some, if◌then◌else◌, ◌>>=◌,
  Bool-cases, arith,
}
use level_db.Decimal.{NumberReader}
use level_db.Coding.{Coding}
use level_db.Db.{DbImpl, Backend, contains}
use level_db.Db.LogFile.{Recovery}
use level_db.Db.Startup.{sort, recover_logs, finish_recovery, recover}
use level_db.Db.Startup.Intact.{
  versions, children, found, IsIntact, begun, listed_db, recover-IsIntact,
}
use level_db.Db.Startup.Logs.{count, IsAscending, logs_named, is_named, is_needed, find_logs_lem}

module _ {W File Lock Logger Key Mem Compaction : Type 0} (reader : NumberReader) (coding : Coding)
    (be : Backend W File Lock Logger Key Mem Compaction) where
  none_missing :
      (n : ℕ) (missing live : List ℕ) (named : Bool)
      → missing ≡ []
      → contains missing n ≡ contains live n && not named
      → (contains live n ≡ false) ⊎ (named ≡ true)
  unfolding contains
  none_missing n missing live named e h = elim (Bool-cases named) [
    | inl k ↦ inr k
    | inr k ↦
        let gone : contains missing n ≡ false = ap (λ (l : List ℕ). contains l n) e in
        inl (ground (arith, h, gone, k))
  ]

  -- On an intact database, `Recover` is the replay of a list of logs from the state behind the
  -- listing of the directory, and the end of the recovery; the list ascends. A number stands in it
  -- once for each name in the directory of a log with that number if it is at least the log number
  -- of the version set or is the number of the previous log, and not at all elsewhere. Each live
  -- file has a name in the directory.
  pub recover_replays :
      (recovery : Recovery Key) (db : DbImpl W Key Mem) (n : ℕ)
      → IsIntact reader coding be db
      → (recover reader coding be recovery db ≡ (
          recover_logs reader coding be
            (sort (found reader coding be db).1)
            (begun reader coding be recovery db)
            (listed_db reader coding be db)
          >>= λ r. some (finish_recovery reader coding be r)))
        × IsAscending (sort (found reader coding be db).1)
        × (count n (sort (found reader coding be db).1) ≡ (
            if is_needed reader coding be
              (be.log_number (versions reader coding be db).2)
              (be.prev_log_number (versions reader coding be db).2)
              n
            then logs_named reader coding be n (children reader coding be db).1
            else 0))
        × ((contains (be.live_files (children reader coding be db).2) n ≡ false)
            ⊎ (is_named reader coding be n (children reader coding be db).1 ≡ true))
  recover_replays recovery db n intact =
      let live = be.live_files (children reader coding be db).2 in
      let (ascends, counts, missing) =
        find_logs_lem reader coding be (be.log_number (versions reader coding be db).2)
          (be.prev_log_number (versions reader coding be db).2) n (children reader coding be db).1
          live in
      (
        recover-IsIntact reader coding be recovery db intact,
        ascends,
        counts,
        none_missing n (found reader coding be db).0 live
            (is_named reader coding be n (children reader coding be db).1) intact.complete missing,
      )

-- ===== src/Db/LogFile/Covers.antt =====
-- The largest sequence number that a log replayed with success has reported.
use level_db.Prelude.{
  subst, ℕ, ◌≤◌, ◌≡◌, ◌⊎◌, sym, ap, ◌∙◌, Bool, true, false, ◌&&◌, not, Option, none, some, Bytes,
  All, ◌==◌, inl, inr, arith, from_some, >>=-eq-some, assert-eq-some, Bool-cases, is_some,
}
use level_db.Status.{Status, ok_status, ok}
use level_db.Decimal.{NumberReader}
use level_db.Coding.{Coding}
use level_db.FileName.{log_file_name}
use level_db.Db.{DbImpl, Backend}
use level_db.Db.Level0.{write_level0_table}
use level_db.Db.LogFile.{
  Recovery, Replay, level0_written, replay_records, reuse_log, flush_current, flush_rest,
  finish_log, replay_log, recover_log_file,
}
use level_db.Db.LogFile.Largest.{max_of, IsCovered, replay_records-max}

module _ {W File Lock Logger Key Mem Compaction : Type 0} (reader : NumberReader) (coding : Coding)
    (be : Backend W File Lock Logger Key Mem Compaction) where
  flush_current-max :
      (o : Option Mem) (r r' : Replay W Key Mem)
      → flush_current reader coding be o r ≡ some r'
      → (max_of r' ≡ max_of r) × ((ok r'.status ≡ false) ⊎ (ok r.status ≡ true))
  unfolding flush_current level0_written
  flush_current-max none r r' h =
      let same = from_some r r' h in
      (
        ap max_of (sym same),
        elim (Bool-cases (ok r.status)) [
          | inl e ↦ inr e
          | inr e ↦ inl (ap (λ t. ok t.status) (sym same) ∙ e)
        ],
      )
  flush_current-max (some mem) r r' h = elim (Bool-cases (ok r.status)) [
    | inl e ↦
        let (written, _, same) =
          >>=-eq-some (write_level0_table reader be mem r.recovery.edit none r.db) _ (rw e at h) in
        (ap max_of (sym (from_some _ r' same)), inr e)
    | inr e ↦
        let same = from_some _ r' (rw e at h) in
        (ap max_of (sym same), inl (ap (λ t. ok t.status) (sym same) ∙ e))
  ]

  reuse_log-max :
      (fname : Bytes) (n : ℕ) (r r' : Replay W Key Mem)
      → reuse_log reader coding be fname n r ≡ some r'
      → (max_of r' ≡ max_of r) × (r'.status ≡ r.status)
  unfolding reuse_log
  reuse_log-max fname n r r' h =
      let (s, lfile_size, w) = be.env.get_file_size fname r.db.world in
      let (s', file, w') = be.env.new_appendable_file fname w in
      let closed = assert-eq-some (not r.db.log_open) _ r' h in
      let inner = assert-eq-some (not (is_some r.db.mem)) _ r' closed in
      elim (Bool-cases (ok s)) [
        | inr e ↦
            let same = from_some _ r' (rw e at inner) in
            (ap max_of (sym same), ap (λ t. t.status) (sym same))
        | inl e ↦ elim (Bool-cases (ok s')) [
          | inl k ↦
              let same = from_some _ r' (rw (e, k) at inner) in
              (ap max_of (sym same), ap (λ t. t.status) (sym same))
          | inr k ↦
              let same = from_some _ r' (rw (e, k) at inner) in
              (ap max_of (sym same), ap (λ t. t.status) (sym same))
        ]
      ]

  finish_log-max :
      (fname : Bytes) (n : ℕ) (last : Bool) (r r' : Replay W Key Mem)
      → finish_log reader coding be fname n last r ≡ some r'
      → ok r'.status ≡ true
      → (max_of r' ≡ max_of r) × (ok r.status ≡ true)
  unfolding finish_log flush_rest
  finish_log-max fname n last r r' h good =
      let reuses = ok r.status && (r.db.reuse_logs && (last && (r.compactions == 0))) in
      elim (Bool-cases reuses) [
        | inl e ↦
            let (r₁, reused, rest) =
              >>=-eq-some (reuse_log reader coding be fname n r) (flush_rest reader coding be)
                (rw e at h) in
            let (same, kept) = reuse_log-max fname n r r₁ reused in
            let (same', _) = flush_current-max r₁.current r₁ r' rest in
            (same' ∙ same, ground (arith, e))
        | inr e ↦
            let (same, stopped) = flush_current-max r.current r r' (rw e at h) in
            (same, elim stopped [ inl bad ↦ absurd (cc (bad, good)) | inr fine ↦ fine ])
      ]

  -- If the log can be opened and `RecoverLogFile` returns a success, then the largest sequence
  -- number that it reports is at least the one that it was given, and at least the last sequence
  -- number of every record in the log that is long enough for a batch.
  pub recover_log_file_covers :
      (log_number : ℕ) (last_log : Bool) (recovery recovery' : Recovery Key)
      (db db' : DbImpl W Key Mem) (fname : Bytes) (file : File) (s : Status)
      → log_file_name db.dbname log_number ≡ some fname
      → ok (be.env.new_sequential_file fname db.world).0 ≡ true
      → (be.env.new_sequential_file fname db.world).1 ≡ some file
      → recover_log_file reader coding be log_number last_log recovery db ≡ some (s, recovery', db')
      → ok s ≡ true
      → (recovery.max_sequence ≤ recovery'.max_sequence)
        × All
            (IsCovered reader coding be recovery'.max_sequence)
            (be.log_records file (be.env.new_sequential_file fname db.world).2)
  unfolding recover_log_file replay_log
  recover_log_file_covers log_number last_log recovery recovery' db db' fname file s named opens
        handle h good =
      let db₁ = record db { world = (be.env.new_sequential_file fname db.world).2 } in
      let start : Replay W Key Mem = record {
        recovery = recovery;
        current = none;
        compactions = 0;
        status = ok_status;
        db = db₁;
      } in
      let (r, loop, rest) =
        >>=-eq-some (replay_records reader coding be (be.log_records file db₁.world) start) _
          (rw (named, opens, handle) at h) in
      let (r', finished, answer) =
        >>=-eq-some (finish_log reader coding be fname log_number last_log r) _ rest in
      let same = from_some (r'.status, r'.recovery, r'.db) (s, recovery', db') answer in
      let success = ap (λ t. ok t.0) same ∙ good in
      let (kept, fine) = finish_log-max fname log_number last_log r r' finished success in
      let (grown, all) =
        replay_records-max reader coding be (be.log_records file db₁.world) start r loop fine in
      let reported : max_of r ≡ recovery'.max_sequence =
        sym kept ∙ ap (λ t. t.1.max_sequence) same in
      (
        omega (arith, grown, reported),
        subst (λ m. All (IsCovered reader coding be m) (be.log_records file db₁.world)) reported
            all,
      )

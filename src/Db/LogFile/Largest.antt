-- ===== src/Db/LogFile/Largest.antt =====
-- The largest sequence number that the loop over the records of a log has seen.
use level_db.Prelude.{
  ℕ, ◌≤◌, ◌<◌, ◌≡◌, ◌⊎◌, sym, ap, ◌∙◌, true, List, [], ◌∷◌, some, Bytes, All, length, ltb,
  if◌then◌else◌, inl, inr, arith, from_some, >>=-eq-some, Bool-cases, none,
}
use level_db.Status.{Status, ok}
use level_db.Decimal.{NumberReader}
use level_db.Coding.{Coding}
use level_db.Batch.{WriteBatch, set_contents, insert_into}
use level_db.Db.{Backend}
use level_db.Db.Obsolete.{maybe_ignore_error}
use level_db.Db.Level0.{write_level0_table}
use level_db.Db.LogFile.{
  Replay, mem_or_new, last_seq_of, level0_written, flush_if_large, record_inserted, replay_record,
  replay_records,
}
use level_db.Db.LogFile.Entries.{set_contents_lem}

abbrev pub max_of : {W Key Mem : Type 0} → Replay W Key Mem → ℕ
max_of r = r.recovery.max_sequence

module _ {W File Lock Logger Key Mem Compaction : Type 0} (reader : NumberReader) (coding : Coding)
    (be : Backend W File Lock Logger Key Mem Compaction) where
  -- The record is too short for a batch, or its last sequence number is at most `largest`.
  abbrev pub IsCovered : ℕ → Bytes → Type 0
  IsCovered largest rec =
      (length rec < 12) ⊎ (last_seq_of reader coding be (record { rep = rec }) ≤ largest)

  flush_if_large-max :
      (mem : Mem) (r r' : Replay W Key Mem)
      → flush_if_large reader coding be mem r ≡ some r'
      → max_of r' ≡ max_of r
  unfolding flush_if_large level0_written
  flush_if_large-max mem r r' h =
      elim (Bool-cases (ltb r.db.write_buffer_size (be.memory_usage mem))) [
        | inr e ↦ ap max_of (sym (from_some _ r' (rw e at h)))
        | inl e ↦
            let (written, _, same) =
              >>=-eq-some (write_level0_table reader be mem r.recovery.edit none r.db) _
                (rw e at h) in
            ap max_of (sym (from_some _ r' same))
      ]

  record_inserted-max :
      (b : WriteBatch) (s : Status) (mem : Mem) (r r' : Replay W Key Mem)
      → record_inserted reader coding be b s mem r ≡ some r'
      → ok r'.status ≡ true
      → (max_of r ≤ max_of r') × (last_seq_of reader coding be b ≤ max_of r')
  unfolding record_inserted
  record_inserted-max b s mem r r' h good =
      let seq = last_seq_of reader coding be b in
      let s' = maybe_ignore_error reader be r.db s in
      elim (Bool-cases (ok s')) [
        | inr e ↦ absurd (cc (e, good, ap (λ t. ok t.status) (from_some _ r' (rw e at h))))
        | inl e ↦
            let largest = r.recovery.max_sequence in
            let next : Replay W Key Mem = record r {
              recovery = record (r.recovery) {
                max_sequence = if ltb largest seq then seq else largest;
              };
              status = s';
            } in
            ground (arith, flush_if_large-max mem next r' (rw e at h))
      ]

  replay_record-max :
      (rec : Bytes) (r r' : Replay W Key Mem)
      → replay_record reader coding be rec r ≡ some r'
      → ok r'.status ≡ true
      → (max_of r ≤ max_of r') × IsCovered (max_of r') rec
  unfolding replay_record
  replay_record-max rec r r' h good = elim (Bool-cases (ltb (length rec) 12)) [
    | inl e ↦ (omega (arith, ap max_of (from_some r r' (rw e at h))), inl (ground (arith, e)))
    | inr e ↦
        let (b, is_rec, rest) =
          >>=-eq-some (set_contents coding (record { rep = [] }) rec) _ (rw e at h) in
        let same =
          from_some (record { rep = rec }) b
            (sym (set_contents_lem reader coding be rec (ground (arith, e))) ∙ is_rec) in
        let ((s, inserted), _, last) =
          >>=-eq-some (insert_into coding be.add_entry b (mem_or_new be.empty_mem r.current)) _
            rest in
        let (grown, covered) = record_inserted-max b s inserted.mem r r' last good in
        (grown, inr (omega (arith, covered, ap (last_seq_of reader coding be) same)))
  ]

  -- A loop that has ended with success has not stopped before.
  replay_records-status :
      (recs : List Bytes) (r r' : Replay W Key Mem)
      → replay_records reader coding be recs r ≡ some r'
      → ok r'.status ≡ true
      → ok r.status ≡ true
  unfolding replay_records
  replay_records-status [] r r' h good = ap (λ t. ok t.status) (from_some r r' h) ∙ good
  replay_records-status (rec ∷ recs) r r' h good = elim (Bool-cases (ok r.status)) [
    | inl e ↦ e
    | inr e ↦ ap (λ t. ok t.status) (from_some r r' (rw e at h)) ∙ good
  ]

  IsCovered-weaken : (a b : ℕ) (rec : Bytes) → a ≤ b → IsCovered a rec → IsCovered b rec
  IsCovered-weaken a b rec h (inl short) = inl short
  IsCovered-weaken a b rec h (inr k) = inr (omega arith)

  pub replay_records-max :
      (recs : List Bytes) (r r' : Replay W Key Mem)
      → replay_records reader coding be recs r ≡ some r'
      → ok r'.status ≡ true
      → (max_of r ≤ max_of r') × All (IsCovered (max_of r')) recs
  unfolding replay_records
  replay_records-max [] r r' h good = (omega (arith, ap max_of (from_some r r' h)), tt)
  replay_records-max (rec ∷ recs) r r' h good =
      let ongoing = replay_records-status (rec ∷ recs) r r' h good in
      let (r₁, one, rest) =
        >>=-eq-some (replay_record reader coding be rec r) (replay_records reader coding be recs)
          (rw ongoing at h) in
      let (grown, covered) =
        replay_record-max rec r r₁ one (replay_records-status recs r₁ r' rest good) in
      let (grown', all) = replay_records-max recs r₁ r' rest good in
      (
        omega (arith, grown, grown'),
        (IsCovered-weaken (max_of r₁) (max_of r') rec grown' covered, all),
      )

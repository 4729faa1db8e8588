-- ===== src/Db/LogFile/Ready.antt =====
-- What a log that is not the last leaves for the next one.
use level_db.Prelude.{
  ℕ, ◌≡◌, refl, ap, sym, subst, ◌∙◌, Bool, true, false, ◌&&◌, ◌==◌, List, [], ◌∷◌, Option, none,
  some, Bytes, length, ltb, if◌then◌else◌, ◌>>=◌, Bool-cases, inl, inr, if-false, from_some,
  >>=-eq-some,
}
use level_db.Status.{Status, ok_status, ok}
use level_db.Decimal.{NumberReader}
use level_db.Coding.{Coding}
use level_db.FileName.{log_file_name}
use level_db.Batch.{WriteBatch, set_contents, insert_into}
use level_db.Builder.Frame.{IsKept}
use level_db.Db.{DbImpl, Backend}
use level_db.Db.Obsolete.{maybe_ignore_error}
use level_db.Db.Level0.{write_level0_table}
use level_db.Db.Level0.Frame.{IsReady, write_level0_table-IsReady}
use level_db.Db.LogFile.{
  Recovery, Replay, mem_or_new, last_seq_of, level0_written, flush_if_large, record_inserted,
  replay_record, replay_records, flush_current, flush_rest, finish_log, reuse_log, replay_log,
  recover_log_file,
}

module _ {W File Lock Logger Key Mem Compaction : Type 0} (reader : NumberReader) (coding : Coding)
    (be : Backend W File Lock Logger Key Mem Compaction) (dbname : Bytes) (There : W → Type 0)
    (kept : IsKept be.env be.tables dbname There)
    (numbered : (w : W) → There w → There (be.new_file_number w).1)
    (others_ready : (db : DbImpl W Key Mem)
      → IsReady reader be dbname There db
      → IsReady reader be dbname There (be.others db)) where
  abbrev Ready : DbImpl W Key Mem → Type 0
  Ready = IsReady reader be dbname There

  level0_written-IsReady :
      (mem : Mem) (k : ℕ) (r r' : Replay W Key Mem)
      → (write_level0_table reader be mem r.recovery.edit none r.db >>= λ t.
          some (level0_written reader coding be k r t))
        ≡ some r'
      → Ready r.db
      → Ready r'.db
  unfolding level0_written
  level0_written-IsReady mem k r r' h ready =
      let (t, written, same) =
        >>=-eq-some (write_level0_table reader be mem r.recovery.edit none r.db) _ h in
      subst (λ (u : Replay W Key Mem). Ready u.db)
        (from_some (level0_written reader coding be k r t) r' same)
        (write_level0_table-IsReady reader be dbname There kept numbered others_ready mem
          r.recovery.edit none r.db t written ready)

  flush_if_large-IsReady :
      (mem : Mem) (r r' : Replay W Key Mem)
      → flush_if_large reader coding be mem r ≡ some r'
      → Ready r.db
      → Ready r'.db
  unfolding flush_if_large
  flush_if_large-IsReady mem r r' h ready =
      elim (Bool-cases (ltb r.db.write_buffer_size (be.memory_usage mem))) [
        | inr e ↦ subst (λ (u : Replay W Key Mem). Ready u.db) (from_some _ r' (rw e at h)) ready
        | inl e ↦ level0_written-IsReady mem _ r r' (rw e at h) ready
      ]

  record_inserted-IsReady :
      (b : WriteBatch) (s : Status) (mem : Mem) (r r' : Replay W Key Mem)
      → record_inserted reader coding be b s mem r ≡ some r'
      → Ready r.db
      → Ready r'.db
  unfolding record_inserted
  record_inserted-IsReady b s mem r r' h ready =
      let seq = last_seq_of reader coding be b in
      let s' = maybe_ignore_error reader be r.db s in
      elim (Bool-cases (ok s')) [
        | inr e ↦ subst (λ (u : Replay W Key Mem). Ready u.db) (from_some _ r' (rw e at h)) ready
        | inl e ↦
            let largest = r.recovery.max_sequence in
            let next : Replay W Key Mem = record r {
              recovery = record (r.recovery) {
                max_sequence = if ltb largest seq then seq else largest;
              };
              status = s';
            } in
            flush_if_large-IsReady mem next r' (rw e at h) ready
      ]

  replay_record-IsReady :
      (rec : Bytes) (r r' : Replay W Key Mem)
      → replay_record reader coding be rec r ≡ some r'
      → Ready r.db
      → Ready r'.db
  unfolding replay_record
  replay_record-IsReady rec r r' h ready = elim (Bool-cases (ltb (length rec) 12)) [
    | inl e ↦ subst (λ (u : Replay W Key Mem). Ready u.db) (from_some r r' (rw e at h)) ready
    | inr e ↦
        let (b, _, rest) =
          >>=-eq-some (set_contents coding (record { rep = [] }) rec) _ (rw e at h) in
        let ((s, inserted), _, last) =
          >>=-eq-some (insert_into coding be.add_entry b (mem_or_new be.empty_mem r.current)) _
            rest in
        record_inserted-IsReady b s inserted.mem r r' last ready
  ]

  replay_records-IsReady :
      (recs : List Bytes) (r r' : Replay W Key Mem)
      → replay_records reader coding be recs r ≡ some r'
      → Ready r.db
      → Ready r'.db
  unfolding replay_records
  replay_records-IsReady [] r r' h ready =
      subst (λ (u : Replay W Key Mem). Ready u.db) (from_some r r' h) ready
  replay_records-IsReady (rec ∷ recs) r r' h ready = elim (Bool-cases (ok r.status)) [
    | inr e ↦ subst (λ (u : Replay W Key Mem). Ready u.db) (from_some r r' (rw e at h)) ready
    | inl e ↦
        let (r₁, one, rest) =
          >>=-eq-some (replay_record reader coding be rec r) (replay_records reader coding be recs)
            (rw e at h) in
        replay_records-IsReady recs r₁ r' rest (replay_record-IsReady rec r r₁ one ready)
  ]

  flush_current-IsReady :
      (o : Option Mem) (r r' : Replay W Key Mem)
      → flush_current reader coding be o r ≡ some r'
      → Ready r.db
      → Ready r'.db
  unfolding flush_current
  flush_current-IsReady none r r' h ready =
      subst (λ (u : Replay W Key Mem). Ready u.db) (from_some r r' h) ready
  flush_current-IsReady (some mem) r r' h ready = elim (Bool-cases (ok r.status)) [
    | inr e ↦ subst (λ (u : Replay W Key Mem). Ready u.db) (from_some _ r' (rw e at h)) ready
    | inl e ↦ level0_written-IsReady mem r.compactions r r' (rw e at h) ready
  ]

  never : (a b c : Bool) → (a && (b && (false && c))) ≡ false
  never true true c = refl
  never true false c = refl
  never false b c = refl

  finish_log-IsReady :
      (fname : Bytes) (n : ℕ) (r r' : Replay W Key Mem)
      → finish_log reader coding be fname n false r ≡ some r'
      → Ready r.db
      → Ready r'.db
  unfolding finish_log flush_rest
  finish_log-IsReady fname n r r' h ready =
      let reuses = ok r.status && (r.db.reuse_logs && (false && (r.compactions == 0))) in
      let skipped =
        if-false reuses (reuse_log reader coding be fname n r) (some r)
          (never (ok r.status) r.db.reuse_logs (r.compactions == 0)) in
      flush_current-IsReady r.current r r'
        (ap (λ o. o >>= flush_rest reader coding be) (sym skipped) ∙ h) ready

  pub recover_log_file-IsReady :
      (n : ℕ) (recovery : Recovery Key) (db : DbImpl W Key Mem) (fname : Bytes) (file : File)
      (t : Status × Recovery Key × DbImpl W Key Mem)
      → log_file_name db.dbname n ≡ some fname
      → ok (be.env.new_sequential_file fname db.world).0 ≡ true
      → (be.env.new_sequential_file fname db.world).1 ≡ some file
      → There (be.env.new_sequential_file fname db.world).2
      → recover_log_file reader coding be n false recovery db ≡ some t
      → Ready db
      → Ready t.2
  unfolding recover_log_file replay_log
  recover_log_file-IsReady n recovery db fname file t named opened got there h ready =
      let db₁ = record db { world = (be.env.new_sequential_file fname db.world).2 } in
      let start : Replay W Key Mem = record {
        recovery = recovery;
        current = none;
        compactions = 0;
        status = ok_status;
        db = db₁;
      } in
      let (r, loop, rest) =
        >>=-eq-some (replay_records reader coding be (be.log_records file db₁.world) start) _
          (rw (named, opened, got) at h) in
      let (r', finished, answer) =
        >>=-eq-some (finish_log reader coding be fname n false r) _ rest in
      subst (λ (u : Status × Recovery Key × DbImpl W Key Mem). Ready u.2)
        (from_some (r'.status, r'.recovery, r'.db) t answer)
        (finish_log-IsReady fname n r r' finished (
          replay_records-IsReady (be.log_records file db₁.world) start r loop (record {
            there = there;
            named = ready.named;
            closed = ready.closed;
            empty = ready.empty;
          })))

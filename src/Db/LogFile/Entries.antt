-- ===== src/Db/LogFile/Entries.antt =====
-- A log of write batches is replayed into a memtable.
use level_db.Prelude.{
  ◌⊎◌, inl, inr, ℕ, ◌+◌, ◌-◌, ◌^◌, ◌≤◌, ◌<◌, ◌≡◌, refl, ap, ◌∙◌, true, false, List, [], ◌∷◌, Option,
  none, some, Bytes, length, ltb, if◌then◌else◌, ◌>>=◌, arith, if-true,
}
use level_db.Status.{ok_status, ok}
use level_db.Decimal.{NumberReader}
use level_db.Coding.{Coding}
use level_db.Batch.{WriteBatch, set_contents}
use level_db.Batch.Header.{Op, Holds, encode, count-layout, sequence-layout, length-layout}
use level_db.Batch.Insert.{add_from, insert_into-Holds}
use level_db.Db.{Backend}
use level_db.Db.Obsolete.{maybe_ignore_error}
use level_db.Db.LogFile.{
  Replay, mem_or_new, sign_extend, last_seq_of, flush_if_large, record_inserted, replay_record,
  replay_records,
}

-- A batch in a log: its sequence number and its records, at least one and less than 2^31.
pub record Entry : Type 0 where
  pub first : ℕ
  pub ops : List Op

-- The sequence number of the last record.
abbrev pub last_of : Entry → ℕ
last_of e = e.first + length e.ops - 1

-- The largest sequence number among those of the entries and `largest`.
abbrev pub largest_of : ℕ → List Entry → ℕ
largest_of largest [] = largest
largest_of largest (e ∷ es) = largest_of (if ltb largest (last_of e) then last_of e else largest) es

module _ {W File Lock Logger Key Mem Compaction : Type 0} (reader : NumberReader) (coding : Coding)
    (be : Backend W File Lock Logger Key Mem Compaction) where
  -- The record of the log encodes the entry.
  pub record Encodes (rec : Bytes) (e : Entry) : Type 0 where
    pub holds : Holds coding (record { rep = rec }) e.first e.ops
    pub some_ops : 0 < length e.ops
    pub few_ops : length e.ops < 2 ^ 31
    pub last_fits : e.first + length e.ops < 2 ^ 64

  -- The records encode the entries in order, apart from those that are too short for a batch.
  abbrev pub EncodeAll : List Bytes → List Entry → Type 0
  EncodeAll [] [] = Unit
  EncodeAll [] (e ∷ es) = ⊥
  EncodeAll (rec ∷ recs) [] = (length rec < 12) × EncodeAll recs []
  EncodeAll (rec ∷ recs) (e ∷ es) =
      ((length rec < 12) × EncodeAll recs (e ∷ es)) ⊎ (Encodes rec e × EncodeAll recs es)

  -- The memtable that the records of the entries are added to, in order.
  abbrev pub add_entries : List Entry → Mem → Mem
  add_entries [] mem = mem
  add_entries (e ∷ es) mem = add_entries es (add_from coding be.add_entry e.first e.ops mem)

  abbrev pub replayed : List Entry → Option Mem → Option Mem
  replayed [] current = current
  replayed (e ∷ es) current =
      replayed es
        (some (add_from coding be.add_entry e.first e.ops (mem_or_new be.empty_mem current)))

  -- The memtable never outgrows the write buffer.
  abbrev pub Fits : ℕ → List Entry → Mem → Type 0
  Fits limit [] mem = Unit
  Fits limit (e ∷ es) mem =
      (be.memory_usage (add_from coding be.add_entry e.first e.ops mem) ≤ limit)
      × Fits limit es (add_from coding be.add_entry e.first e.ops mem)

  -- The variables of the loop behind the entries.
  abbrev pub behind : List Entry → Replay W Key Mem → Replay W Key Mem
  behind es r = record r {
    recovery = record (r.recovery) { max_sequence = largest_of r.recovery.max_sequence es };
    current = replayed es r.current;
    status = ok_status;
  }

  last_seq_of_lem :
      (rec : Bytes) (e : Entry)
      → Encodes rec e
      → last_seq_of reader coding be (record { rep = rec }) ≡ last_of e
  unfolding last_seq_of sign_extend
  last_seq_of_lem rec e h =
      let b : WriteBatch = record { rep = rec } in
      let n = length e.ops in
      let counted =
        count-layout coding b e.first n (encode coding e.ops) h.holds.shape h.holds.count_bound in
      let seq =
        sequence-layout coding b e.first n (encode coding e.ops) h.holds.shape h.holds.seq_bound in
      ground (arith, counted, seq)

  header_there : (rec : Bytes) (e : Entry) → Encodes rec e → 12 ≤ length rec
  header_there rec e h =
      let size =
        ap length h.holds.shape
        ∙ length-layout coding e.first (length e.ops) (encode coding e.ops) in
      omega (arith, size)

  pub set_contents_lem :
      (rec : Bytes)
      → 12 ≤ length rec
      → set_contents coding (record { rep = [] }) rec ≡ some (record { rep = rec })
  unfolding set_contents
  set_contents_lem rec h = ground arith

  -- The variables behind a batch that was inserted.
  abbrev pub inserted : Entry → Replay W Key Mem → Replay W Key Mem
  inserted e r = record r {
    recovery = record (r.recovery) { max_sequence = largest_of r.recovery.max_sequence (e ∷ []) };
    status = ok_status;
  }

  record_inserted_lem :
      (b : WriteBatch) (e : Entry) (mem : Mem) (r : Replay W Key Mem)
      → last_seq_of reader coding be b ≡ last_of e
      → record_inserted reader coding be b ok_status mem r
        ≡ flush_if_large reader coding be mem (inserted e r)
  unfolding record_inserted maybe_ignore_error
  record_inserted_lem b e mem r h =
      ap
        (λ n. flush_if_large reader coding be mem (record r {
          recovery = record (r.recovery) {
            max_sequence = if ltb r.recovery.max_sequence n then n else r.recovery.max_sequence;
          };
          status = ok_status;
        }))
        h

  -- The memtable behind the batch.
  abbrev pub mem_with : Entry → Option Mem → Mem
  mem_with e current = add_from coding be.add_entry e.first e.ops (mem_or_new be.empty_mem current)

  pub replay_record-Encodes :
      (rec : Bytes) (e : Entry) (r : Replay W Key Mem)
      → Encodes rec e
      → replay_record reader coding be rec r
        ≡ flush_if_large reader coding be (mem_with e r.current) (inserted e r)
  unfolding replay_record
  replay_record-Encodes rec e r h =
      let b : WriteBatch = record { rep = rec } in
      let mem = mem_or_new be.empty_mem r.current in
      let long : ltb (length rec) 12 ≡ false = ground (arith, header_there rec e h) in
      rw
        (
          long,
          set_contents_lem rec (header_there rec e h),
          insert_into-Holds coding be.add_entry b e.first e.ops mem h.holds h.last_fits,
        )
        (record_inserted_lem b e (mem_with e r.current) r (last_seq_of_lem rec e h))

  pub flush_if_large_small :
      (mem : Mem) (r : Replay W Key Mem)
      → be.memory_usage mem ≤ r.db.write_buffer_size
      → flush_if_large reader coding be mem r ≡ some (record r { current = some mem })
  unfolding flush_if_large
  flush_if_large_small mem r small =
      let fits : ltb r.db.write_buffer_size (be.memory_usage mem) ≡ false = ground arith in
      rw fits refl

  -- A record that is too short for a batch is skipped.
  pub replay_records_short :
      (rec : Bytes) (recs : List Bytes) (r : Replay W Key Mem)
      → length rec < 12
      → ok r.status ≡ true
      → replay_records reader coding be (rec ∷ recs) r ≡ replay_records reader coding be recs r
  unfolding replay_records replay_record
  replay_records_short rec recs r short going =
      let skipped : ltb (length rec) 12 ≡ true = ground arith in
      if-true (ok r.status) _ _ going
      ∙ ap (λ o. o >>= replay_records reader coding be recs)
          (if-true (ltb (length rec) 12) _ _ skipped)

  -- The loop over a log of whole batches, none of which fills the memtable, adds all their records
  -- in order and finds the largest sequence number.
  pub replay_records-EncodeAll :
      (recs : List Bytes) (es : List Entry) (r : Replay W Key Mem)
      → EncodeAll recs es
      → r.status ≡ ok_status
      → Fits r.db.write_buffer_size es (mem_or_new be.empty_mem r.current)
      → replay_records reader coding be recs r ≡ some (behind es r)
  unfolding replay_records
  replay_records-EncodeAll [] [] r h clean fits = ap (λ s. some (record r { status = s })) clean
  replay_records-EncodeAll [] (e ∷ es) r h clean fits = absurd h
  replay_records-EncodeAll (rec ∷ recs) [] r (short, hs) clean fits =
      replay_records_short rec recs r short (ap ok clean)
      ∙ replay_records-EncodeAll recs [] r hs clean fits
  replay_records-EncodeAll (rec ∷ recs) (e ∷ es) r (inl (short, hs)) clean fits =
      replay_records_short rec recs r short (ap ok clean)
      ∙ replay_records-EncodeAll recs (e ∷ es) r hs clean fits
  replay_records-EncodeAll (rec ∷ recs) (e ∷ es) r (inr (h, hs)) clean (small, fits) =
      let going : ok r.status ≡ true = ap ok clean in
      if-true (ok r.status) _ _ going
      ∙ ap (λ o. o >>= replay_records reader coding be recs)
          (replay_record-Encodes rec e r h
            ∙ flush_if_large_small (mem_with e r.current) (inserted e r) small)
      ∙ replay_records-EncodeAll recs es (behind (e ∷ []) r) hs refl fits

  pub replayed-some :
      (e : Entry) (es : List Entry) (current : Option Mem)
      → replayed (e ∷ es) current ≡ some (add_entries (e ∷ es) (mem_or_new be.empty_mem current))
  replayed-some e [] current = refl
  replayed-some e (e' ∷ es) current =
      replayed-some e' es
        (some (add_from coding be.add_entry e.first e.ops (mem_or_new be.empty_mem current)))

  pub replayed-none :
      (es : List Entry) → mem_or_new be.empty_mem (replayed es none) ≡ add_entries es be.empty_mem
  replayed-none [] = refl
  replayed-none (e ∷ es) = ap (mem_or_new be.empty_mem) (replayed-some e es none)

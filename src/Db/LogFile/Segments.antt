-- ===== src/Db/LogFile/Segments.antt =====
-- The loop over the records of a log, for any size of the write buffer: what is stored in tables
-- and what is left in the memtable.
use level_db.Prelude.{
  ◌+◌, ◌<◌, ◌≡◌, ◌⊎◌, inl, inr, refl, sym, ap, subst, ◌∙◌, true, false, List, [], ◌∷◌, ◌++◌,
  append_assoc, append-nil, Option, none, some, Bytes, length, ltb, ◌>>=◌, arith, if-true,
  Bool-cases,
}
use level_db.Status.{Status, ok}
use level_db.Decimal.{NumberReader}
use level_db.Coding.{Coding}
use level_db.Db.{DbImpl, Backend, Edit}
use level_db.Db.Level0.{write_level0_table}
use level_db.Db.Level0.Total.{write_level0_table_total}
use level_db.Db.Level0.Saves.{Saves, written-Saves}
use level_db.Db.LogFile.{Replay, mem_or_new, level0_written, flush_if_large, replay_records}
use level_db.Db.LogFile.Entries.{
  Entry, EncodeAll, Encodes, add_entries, largest_of, replayed, replayed-none, inserted, mem_with,
  replay_record-Encodes, flush_if_large_small, replay_records_short,
}

abbrev pub joined {ℓ} : {A : Type ℓ} → List (List A) → List A
joined [] = []
joined (xs ∷ rest) = xs ++ joined rest

module _ {W File Lock Logger Key Mem Compaction : Type 0} (reader : NumberReader) (coding : Coding)
    (be : Backend W File Lock Logger Key Mem Compaction) where
  -- The edit stores a memtable of each segment, in order, and nothing else.
  pub data Stored : List (List Entry) → Edit Key → Type 0 where
    done : Stored [] []
    table :
        {seg : List Entry} {segs : List (List Entry)} {added more : Edit Key}
        → Saves reader be (add_entries reader coding be seg be.empty_mem) added
        → Stored segs more
        → Stored (seg ∷ segs) (added ++ more)

  -- What the loop has done with the entries that were pending and those that it read: some are
  -- stored, the rest is in the memtable, and the order is kept.
  pub record Replayed (pending es : List Entry) (r r' : Replay W Key Mem) : Type 0 where
    pub segs : List (List Entry)
    pub rest : List Entry
    pub added : Edit Key
    pub all : joined segs ++ rest ≡ pending ++ es
    pub stored : Stored segs added
    pub edited : r'.recovery.edit ≡ r.recovery.edit ++ added
    pub left : r'.current ≡ replayed reader coding be rest none
    pub largest : r'.recovery.max_sequence ≡ largest_of r.recovery.max_sequence es
    pub counted : r'.compactions ≡ r.compactions + length segs
    pub marked :
        ((segs ≡ []) × (r'.db ≡ r.db) × (r'.recovery.save_manifest ≡ r.recovery.save_manifest))
        ⊎ ((0 < length segs) × (r'.recovery.save_manifest ≡ true))

  replayed-append :
      (es : List Entry) (e : Entry) (current : Option Mem)
      → replayed reader coding be (es ++ e ∷ []) current
        ≡ some (mem_with reader coding be e (replayed reader coding be es current))
  replayed-append [] e current = refl
  replayed-append (d ∷ es) e current = replayed-append es e _

  replay_records_stopped :
      (recs : List Bytes) (r : Replay W Key Mem)
      → ok r.status ≡ false
      → replay_records reader coding be recs r ≡ some r
  unfolding replay_records
  replay_records_stopped [] r h = refl
  replay_records_stopped (rec ∷ recs) r h = rw h refl

  pub add_entries-append :
      (es : List Entry) (e : Entry)
      → add_entries reader coding be (es ++ e ∷ []) be.empty_mem
        ≡ mem_with reader coding be e (replayed reader coding be es none)
  add_entries-append es e =
      sym (replayed-none reader coding be (es ++ e ∷ []))
      ∙ ap (mem_or_new be.empty_mem) (replayed-append es e none)

  -- The batch was added to the memtable.
  Replayed-small :
      (pending es : List Entry) (e : Entry) (r r' : Replay W Key Mem) (mem : Mem)
      → Replayed
          (pending ++ e ∷ [])
          es
          (record (inserted reader coding be e r) { current = some mem })
          r'
      → Replayed pending (e ∷ es) r r'
  Replayed-small pending es e r r' mem h = record {
    segs = h.segs;
    rest = h.rest;
    added = h.added;
    all = h.all ∙ append_assoc pending (e ∷ []) es;
    stored = h.stored;
    edited = h.edited;
    left = h.left;
    largest = h.largest;
    counted = h.counted;
    marked = h.marked;
  }

  -- The memtable with the batch was stored.
  Replayed-large :
      (pending es : List Entry) (e : Entry) (r r' : Replay W Key Mem) (s : Status)
      (edit added : Edit Key) (db : DbImpl W Key Mem)
      → edit ≡ r.recovery.edit ++ added
      → Saves reader be (add_entries reader coding be (pending ++ e ∷ []) be.empty_mem) added
      → Replayed [] es
          (level0_written reader coding be
            (r.compactions + 1)
            (inserted reader coding be e r)
            (s, edit, db))
          r'
      → Replayed pending (e ∷ es) r r'
  unfolding level0_written
  Replayed-large pending es e r r' s edit added db grown saves h = record {
    segs = (pending ++ e ∷ []) ∷ h.segs;
    rest = h.rest;
    added = added ++ h.added;
    all =
        append_assoc (pending ++ e ∷ []) (joined h.segs) h.rest
        ∙ ap (λ t. (pending ++ e ∷ []) ++ t) h.all
        ∙ append_assoc pending (e ∷ []) es;
    stored = Stored.table saves h.stored;
    edited = h.edited ∙ ap (λ t. t ++ h.added) grown ∙ append_assoc r.recovery.edit added h.added;
    left = h.left;
    largest = h.largest;
    counted = omega (arith, h.counted);
    marked = inr (
      omega arith,
      elim h.marked [
        | inl (none_stored, same, marked) ↦ marked
        | inr (some_stored, marked) ↦ marked
      ],
    );
  }

  replay_records_step :
      (rec : Bytes) (recs : List Bytes) (e : Entry) (r : Replay W Key Mem)
      → Encodes reader coding be rec e
      → ok r.status ≡ true
      → replay_records reader coding be (rec ∷ recs) r ≡ (
          flush_if_large reader coding be
            (mem_with reader coding be e r.current)
            (inserted reader coding be e r)
          >>= replay_records reader coding be recs)
  unfolding replay_records
  replay_records_step rec recs e r h going =
      if-true (ok r.status) _ _ going
      ∙ ap (λ o. o >>= replay_records reader coding be recs)
          (replay_record-Encodes reader coding be rec e r h)

  flush_if_large_large :
      (mem : Mem) (r : Replay W Key Mem) (t : Status × Edit Key × DbImpl W Key Mem)
      → ltb r.db.write_buffer_size (be.memory_usage mem) ≡ true
      → write_level0_table reader be mem r.recovery.edit none r.db ≡ some t
      → flush_if_large reader coding be mem r
        ≡ some (level0_written reader coding be (r.compactions + 1) r t)
  unfolding flush_if_large
  flush_if_large_large mem r t large written =
      if-true (ltb r.db.write_buffer_size (be.memory_usage mem)) _ _ large
      ∙ ap (λ o. o >>= λ u. some (level0_written reader coding be (r.compactions + 1) r u)) written

module _ {W File Lock Logger Key Mem Compaction : Type 0} (reader : NumberReader) (coding : Coding)
    (be : Backend W File Lock Logger Key Mem Compaction)
    (opens : (f : Bytes) (w : W)
      → ok (be.env.new_writable_file f w).0 ≡ true
      → (file : File) × ((be.env.new_writable_file f w).1 ≡ some file))
    (fills : (file : File) (w : W)
      → ok (be.tables.finish file w).0 ≡ true
      → 0 < be.tables.file_size file (be.tables.finish file w).1)
    (counts : (w : W) → 0 < (be.new_file_number w).0) where
  -- The loop over a log of whole batches returns, and unless it ends with an error, every batch is
  -- in a table or in the memtable.
  pub replay_records-Replayed :
      (recs : List Bytes) (es pending : List Entry) (r : Replay W Key Mem)
      → EncodeAll reader coding be recs es
      → ok r.status ≡ true
      → r.current ≡ replayed reader coding be pending none
      → (r' : Replay W Key Mem) × (replay_records reader coding be recs r ≡ some r')
        × ((ok r'.status ≡ false) ⊎ Replayed reader coding be pending es r r')
  unfolding replay_records
  replay_records-Replayed [] [] pending r h going held = (
    r,
    refl,
    inr (record {
      segs = [];
      rest = pending;
      added = [];
      all = sym (append-nil pending);
      stored = Stored.done;
      edited = sym (append-nil r.recovery.edit);
      left = held;
      largest = refl;
      counted = omega arith;
      marked = inl (refl, refl, refl);
    }),
  )
  replay_records-Replayed [] (e ∷ es) pending r h going held = absurd h
  replay_records-Replayed (rec ∷ recs) [] pending r (short, hs) going held =
      let (r', run, out) = replay_records-Replayed recs [] pending r hs going held in
      (r', replay_records_short reader coding be rec recs r short going ∙ run, out)
  replay_records-Replayed (rec ∷ recs) (e ∷ es) pending r (inl (short, hs)) going held =
      let (r', run, out) = replay_records-Replayed recs (e ∷ es) pending r hs going held in
      (r', replay_records_short reader coding be rec recs r short going ∙ run, out)
  replay_records-Replayed (rec ∷ recs) (e ∷ es) pending r (inr (h, hs)) going held =
      let mem = mem_with reader coding be e r.current in
      let next = inserted reader coding be e r in
      let begun = replay_records_step reader coding be rec recs e r h going in
      let whole : mem ≡ add_entries reader coding be (pending ++ e ∷ []) be.empty_mem =
        ap (mem_with reader coding be e) held
        ∙ sym (add_entries-append reader coding be pending e) in
      elim (Bool-cases (ltb r.db.write_buffer_size (be.memory_usage mem))) [
        | inr k ↦
            let small = flush_if_large_small reader coding be mem next (ground (arith, k)) in
            let now : some mem ≡ replayed reader coding be (pending ++ e ∷ []) none =
              ap (λ o. some (mem_with reader coding be e o)) held
              ∙ sym (replayed-append reader coding be pending e none) in
            let (r', run, out) =
              replay_records-Replayed recs es (pending ++ e ∷ [])
                (record next { current = some mem }) hs refl now in
            (
              r',
              begun ∙ ap (λ o. o >>= replay_records reader coding be recs) small ∙ run,
              elim out [
                | inl bad ↦ inl bad
                | inr kept ↦ inr (Replayed-small reader coding be pending es e r r' mem kept)
              ],
            )
        | inl k ↦
            let ((s, edit, db), written) =
              write_level0_table_total reader be opens fills counts mem r.recovery.edit none r.db in
            let next' = level0_written reader coding be (r.compactions + 1) next (s, edit, db) in
            let large =
              ap (λ o. o >>= replay_records reader coding be recs)
                (flush_if_large_large reader coding be mem next (s, edit, db) k written) in
            elim (Bool-cases (ok s)) [
              | inr bad ↦ (
                next',
                begun ∙ large ∙ replay_records_stopped reader coding be recs next' bad,
                inl bad,
              )
              | inl fine ↦
                  let (added, grown, saves) =
                    written-Saves reader be mem r.recovery.edit edit none r.db db s written fine in
                  let (r', run, out) = replay_records-Replayed recs es [] next' hs fine refl in
                  (
                    r',
                    begun ∙ large ∙ run,
                    elim out [
                      | inl bad ↦ inl bad
                      | inr kept ↦ inr (
                          Replayed-large reader coding be pending es e r r' s edit added db grown
                            (subst (λ m. Saves reader be m added) whole saves) kept)
                    ],
                  )
            ]
      ]

-- ===== src/Db/LogFile/Restored.antt =====
-- Where the batches of a log of whole batches are when it was recovered.
use level_db.Prelude.{
  ℕ, ◌≡◌, ◌⊎◌, inl, inr, refl, sym, ap, subst, ◌∙◌, Bool, true, false, ◌&&◌, not, is_some, ◌==◌,
  List, [], ◌∷◌, ◌++◌, append_assoc, append-nil, Option, none, some, Bytes, ◌>>=◌, arith, if-true,
  if-false, Bool-cases, assert-of_true,
}
use level_db.Status.{Status, ok}
use level_db.Decimal.{NumberReader}
use level_db.Coding.{Coding}
use level_db.Db.{DbImpl, Backend, Edit}
use level_db.Db.Level0.Saves.{Saves}
use level_db.Db.LogFile.{
  Recovery, Replay, mem_or_new, level0_written, reuse_log, flush_rest, flush_current, finish_log,
}
use level_db.Db.LogFile.Entries.{Entry, add_entries, largest_of, replayed-none}
use level_db.Db.LogFile.Segments.{joined, Stored, Replayed}

module _ {W File Lock Logger Key Mem Compaction : Type 0} (reader : NumberReader) (coding : Coding)
    (be : Backend W File Lock Logger Key Mem Compaction) where
  -- Where the batches are: the segments are stored in tables, in order, by what was added to the
  -- edit, which is marked to be saved; the rest is in the memtable.
  pub record Restored (es : List Entry) (recovery recovery' : Recovery Key) (db' : DbImpl W Key Mem)
      : Type 0 where
    pub segs : List (List Entry)
    pub rest : List Entry
    pub added : Edit Key
    pub all : joined segs ++ rest ≡ es
    pub stored : Stored reader coding be segs added
    pub edited : recovery'.edit ≡ recovery.edit ++ added
    pub left : (rest ≡ []) ⊎ (db'.mem ≡ some (add_entries reader coding be rest be.empty_mem))
    pub largest : recovery'.max_sequence ≡ largest_of recovery.max_sequence es
    pub marked :
        ((segs ≡ []) × (recovery'.save_manifest ≡ recovery.save_manifest))
        ⊎ (recovery'.save_manifest ≡ true)

  Stored-append :
      (segs : List (List Entry)) (seg : List Entry) (added more : Edit Key)
      → Stored reader coding be segs added
      → Saves reader be (add_entries reader coding be seg be.empty_mem) more
      → Stored reader coding be (segs ++ seg ∷ []) (added ++ more)
  Stored-append [] seg _ more Stored.done saves =
      subst (Stored reader coding be (seg ∷ [])) (append-nil more) (Stored.table saves Stored.done)
  Stored-append (s ∷ segs) seg _ more (Stored.table {added = a} {more = b} first rest) saves =
      subst (Stored reader coding be (s ∷ segs ++ seg ∷ [])) (sym (append_assoc a b more))
        (Stored.table first (Stored-append segs seg b more rest saves))

  joined-append :
      (segs : List (List Entry)) (seg : List Entry) → joined (segs ++ seg ∷ []) ≡ joined segs ++ seg
  joined-append [] seg = append-nil seg
  joined-append (s ∷ segs) seg =
      ap (λ t. s ++ t) (joined-append segs seg) ∙ sym (append_assoc s (joined segs) seg)

  -- The loop has stored everything that it did not leave in the memtable, and the memtable is
  -- empty.
  pub Restored-stored :
      (es : List Entry) (r₀ r : Replay W Key Mem) (db : DbImpl W Key Mem)
      (h : Replayed reader coding be [] es r₀ r)
      → h.rest ≡ []
      → Restored es r₀.recovery r.recovery db
  Restored-stored es r₀ r db h nothing = record {
    segs = h.segs;
    rest = [];
    added = h.added;
    all = ap (λ t. joined h.segs ++ t) (sym nothing) ∙ h.all;
    stored = h.stored;
    edited = h.edited;
    left = inl refl;
    largest = h.largest;
    marked = elim h.marked [
      | inl (none_stored, same, marked) ↦ inl (none_stored, marked)
      | inr (some_stored, marked) ↦ inr marked
    ];
  }

  -- The memtable was stored behind the loop.
  pub Restored-written :
      (es : List Entry) (r₀ r : Replay W Key Mem) (s : Status) (edit more : Edit Key)
      (db : DbImpl W Key Mem) (h : Replayed reader coding be [] es r₀ r)
      → edit ≡ r.recovery.edit ++ more
      → Saves reader be (add_entries reader coding be h.rest be.empty_mem) more
      → Restored es r₀.recovery
          (level0_written reader coding be r.compactions r (s, edit, db)).recovery
          db
  unfolding level0_written
  Restored-written es r₀ r s edit more db h grown saves = record {
    segs = h.segs ++ h.rest ∷ [];
    rest = [];
    added = h.added ++ more;
    all = append-nil (joined (h.segs ++ h.rest ∷ [])) ∙ joined-append h.segs h.rest ∙ h.all;
    stored = Stored-append h.segs h.rest h.added more h.stored saves;
    edited = grown ∙ ap (λ t. t ++ more) h.edited ∙ append_assoc r₀.recovery.edit h.added more;
    left = inl refl;
    largest = h.largest;
    marked = inr refl;
  }

  -- The memtable of a log that filled none is kept.
  pub Restored-reused :
      (es : List Entry) (r₀ r : Replay W Key Mem) (db : DbImpl W Key Mem)
      (h : Replayed reader coding be [] es r₀ r)
      → db.mem ≡ some (mem_or_new be.empty_mem r.current)
      → Restored es r₀.recovery r.recovery db
  Restored-reused es r₀ r db h held = record {
    segs = h.segs;
    rest = h.rest;
    added = h.added;
    all = h.all;
    stored = h.stored;
    edited = h.edited;
    left = inr (
        held
        ∙ ap some (ap (mem_or_new be.empty_mem) h.left ∙ replayed-none reader coding be h.rest));
    largest = h.largest;
    marked = elim h.marked [
      | inl (none_stored, same, marked) ↦ inl (none_stored, marked)
      | inr (some_stored, marked) ↦ inr marked
    ];
  }

  -- A log is reused with its memtable, or the file is left closed.
  pub reuse_log_cases :
      (fname : Bytes) (n : ℕ) (r : Replay W Key Mem)
      → r.db.log_open ≡ false
      → r.db.mem ≡ none
      → ((w : W) × (reuse_log reader coding be fname n r
            ≡ some (record r { db = record (r.db) { world = w } })))
        ⊎ ((db : DbImpl W Key Mem) × (reuse_log reader coding be fname n r
              ≡ some (record r { current = none; db = db }))
            × (db.mem ≡ some (mem_or_new be.empty_mem r.current)))
  unfolding reuse_log
  reuse_log_cases fname n r closed empty =
      let (s, lfile_size, w) = be.env.get_file_size fname r.db.world in
      let (s', file, w') = be.env.new_appendable_file fname w in
      let checked =
        assert-of_true (not r.db.log_open) _ (ap not closed)
        ∙ assert-of_true (not (is_some r.db.mem)) _ (ap (λ m. not (is_some m)) empty) in
      elim (Bool-cases (ok s)) [
        | inr e ↦ inl (w, checked ∙ ap some (if-false _ _ _ e))
        | inl e ↦ elim (Bool-cases (ok s')) [
          | inr k ↦ inl (w', checked ∙ ap some (if-true _ _ _ e ∙ if-false _ _ _ k))
          | inl k ↦ inr (_, checked ∙ ap some (if-true _ _ _ e ∙ if-true _ _ _ k), refl)
        ]
      ]

  -- A log that fills no memtable leaves the database as it was.
  pub kept_db :
      (es : List Entry) (r₀ r : Replay W Key Mem) (h : Replayed reader coding be [] es r₀ r)
      → r₀.compactions ≡ 0
      → r.compactions ≡ 0
      → r.db ≡ r₀.db
  kept_db es r₀ r h fresh still = elim h.marked [
    | inl (none_stored, same, marked) ↦ same
    | inr (some_stored, marked) ↦ absurd (omega (arith, h.counted, fresh, still, some_stored))
  ]

  flush_current_stopped :
      (o : Option Mem) (r : Replay W Key Mem)
      → ok r.status ≡ false
      → (r' : Replay W Key Mem) × (flush_current reader coding be o r ≡ some r')
        × (ok r'.status ≡ false)
  unfolding flush_current
  flush_current_stopped none r bad = (r, refl, bad)
  flush_current_stopped (some mem) r bad =
      (record r { current = none }, if-false (ok r.status) _ _ bad, bad)

  -- Behind an error nothing is written.
  pub finish_log_stopped :
      (fname : Bytes) (n : ℕ) (last : Bool) (r : Replay W Key Mem)
      → ok r.status ≡ false
      → (r' : Replay W Key Mem) × (finish_log reader coding be fname n last r ≡ some r')
        × (ok r'.status ≡ false)
  unfolding finish_log flush_rest
  finish_log_stopped fname n last r bad =
      let reusable = r.db.reuse_logs && (last && (r.compactions == 0)) in
      let skipped =
        ap (λ o. o >>= flush_rest reader coding be)
          (if-false (ok r.status && reusable) _ _ (ap (λ b. b && reusable) bad)) in
      let (r', run, still) = flush_current_stopped r.current r bad in (r', skipped ∙ run, still)

-- ===== src/Db/Open/Durable.antt =====
-- The steps of `DB::Open` behind `Recover`, and the batches of the logs.
use level_db.Prelude.{
  ◌≡◌, ◌⊎◌, inl, inr, ap, sym, subst, ◌∙◌, true, false, ◌&&◌, is_some, List, [], ◌∷◌, ◌++◌,
  append_assoc, Option, none, some, Bool-cases, arith, assert-eq-some, from_some, if-true, if-false,
}
use level_db.Status.{Status, ok}
use level_db.Decimal.{NumberReader}
use level_db.Coding.{Coding}
use level_db.Db.{DbImpl, Backend, Edit, EditCall}
use level_db.Db.Obsolete.{delete_obsolete_files}
use level_db.Db.Schedule.{maybe_schedule_compaction}
use level_db.Db.LogFile.{Recovery}
use level_db.Db.LogFile.Entries.{Entry}
use level_db.Db.LogFile.Restored.{Restored}
use level_db.Db.Open.{ensure_log, install_recovery, start_work, finish_open}
use level_db.Db.Open.Returns.{mem-started}
use level_db.Db.Open.Logged.{Logged, Durable, Logged-Restored, ensure_log-Logged}

module _ {W File Lock Logger Key Mem Compaction : Type 0} (reader : NumberReader) (coding : Coding)
    (be : Backend W File Lock Logger Key Mem Compaction)
    (mem_kept : (db : DbImpl W Key Mem) (m : Mem)
      → db.mem ≡ some m
      → (be.others db).mem ≡ some m) where
  -- The manifest was written, and the memtable was left alone.
  Durable-installed :
      (es : List Entry) (b : Recovery Key) (db : DbImpl W Key Mem) (w w' : W) (end : Edit Key)
      → Logged reader coding be es b db
      → ok (be.log_and_apply (b.edit ++ end) w).0 ≡ true
      → Durable reader coding be es (be.others (record db { world = w' }))
  Durable-installed es b db w w' end h good = record {
    segs = h.segs;
    rest = h.rest;
    added = h.added;
    all = h.all;
    stored = h.stored;
    applied = inr (
      h.more ++ end,
      w,
      subst (λ e. ok (be.log_and_apply e w).0 ≡ true)
          (ap (λ e. e ++ end) h.edited ∙ append_assoc h.added h.more end) good,
    );
    left = elim h.left [
      | inl nothing ↦ inl nothing
      | inr held ↦ inr (mem_kept (record db { world = w' }) _ held)
    ];
  }

  -- There was nothing to be written.
  Durable-kept :
      (es : List Entry) (b : Recovery Key) (db : DbImpl W Key Mem)
      → Logged reader coding be es b db
      → b.save_manifest ≡ false
      → Durable reader coding be es db
  Durable-kept es b db h unmarked = record {
    segs = h.segs;
    rest = h.rest;
    added = h.added;
    all = h.all;
    stored = h.stored;
    applied = elim h.marked [
      | inl nothing ↦ inl nothing
      | inr marked ↦ absurd (cc (marked, unmarked))
    ];
    left = h.left;
  }

  install_recovery-Durable :
      (es : List Entry) (s : Status) (b : Recovery Key) (db : DbImpl W Key Mem)
      → ok s ≡ true
      → Logged reader coding be es b db
      → (ok (install_recovery reader coding be (s, b, db)).0 ≡ false)
        ⊎ Durable reader coding be es (install_recovery reader coding be (s, b, db)).1
  unfolding install_recovery
  install_recovery-Durable es s b db good h =
      let end = EditCall.set_prev_log_number 0 ∷ EditCall.set_log_number db.logfile_number ∷ [] in
      let (s', w) = be.log_and_apply (b.edit ++ end) db.world in
      let Ends =
        λ (t : Status × DbImpl W Key Mem). (ok t.0 ≡ false) ⊎ Durable reader coding be es t.1 in
      elim (Bool-cases b.save_manifest) [
        | inr e ↦
            let skip : (ok s && b.save_manifest) ≡ false = ground (arith, e) in
            subst Ends (sym (if-false (ok s && b.save_manifest) _ _ skip))
              (inr (Durable-kept es b db h e))
        | inl e ↦
            let save : (ok s && b.save_manifest) ≡ true = ground (arith, e, good) in
            subst Ends (sym (if-true (ok s && b.save_manifest) _ _ save))
              (elim (Bool-cases (ok s')) [
                | inr bad ↦ inl bad
                | inl fine ↦ inr (Durable-installed es b db db.world w end h fine)
              ])
      ]

  -- How `Open` ends: an error without a database, or the database, with the memtable that it has.
  finish_open_cases :
      (s : Status) (db : DbImpl W Key Mem) (r : Status × Option (DbImpl W Key Mem))
      → finish_open reader coding be (start_work reader coding be (s, db)) ≡ some r
      → ((ok r.0 ≡ false) × (r.1 ≡ none))
        ⊎ ((db' : DbImpl W Key Mem) × (r.1 ≡ some db') × (db'.mem ≡ db.mem) × (ok s ≡ true))
  unfolding finish_open start_work
  finish_open_cases s db r h =
      let next = maybe_schedule_compaction reader be (delete_obsolete_files reader be db) in
      elim (Bool-cases (ok s)) [
        | inr e ↦
            let same = from_some (s, none) r (rw e at h) in
            inl (
              ap (λ (t : Status × Option (DbImpl W Key Mem)). ok t.0) (sym same) ∙ e,
              ap (λ (t : Status × Option (DbImpl W Key Mem)). t.1) (sym same),
            )
        | inl e ↦
            let same =
              from_some (s, some next) r (assert-eq-some (is_some next.mem) _ r (rw e at h)) in
            inr (
              next,
              ap (λ (t : Status × Option (DbImpl W Key Mem)). t.1) (sym same),
              mem-started reader be db,
              e,
            )
      ]

  ensure_log_good :
      (t r : Status × Recovery Key × DbImpl W Key Mem)
      → ensure_log reader coding be t ≡ some r
      → ok r.0 ≡ true
      → ok t.0 ≡ true
  unfolding ensure_log
  ensure_log_good (s, b, db) r h good = elim (Bool-cases (ok s)) [
    | inl e ↦ e
    | inr e ↦
        ap (λ (t : Status × Recovery Key × DbImpl W Key Mem). ok t.0)
          (from_some (s, b, db) r (rw e at h))
        ∙ good
  ]

  install_recovery_good :
      (t : Status × Recovery Key × DbImpl W Key Mem)
      → ok (install_recovery reader coding be t).0 ≡ true
      → ok t.0 ≡ true
  unfolding install_recovery
  install_recovery_good (s, b, db) h = elim (Bool-cases (ok s)) [ inl e ↦ e | inr e ↦ rw e at h ]

  Durable-mem :
      (es : List Entry) (db db' : DbImpl W Key Mem)
      → db'.mem ≡ db.mem
      → Durable reader coding be es db
      → Durable reader coding be es db'
  Durable-mem es db db' same h = record {
    segs = h.segs;
    rest = h.rest;
    added = h.added;
    all = h.all;
    stored = h.stored;
    applied = h.applied;
    left = elim h.left [ inl nothing ↦ inl nothing | inr held ↦ inr (same ∙ held) ];
  }

  -- The steps of `Open` behind a recovery.
  abbrev pub Ended : List Entry → Status × Option (DbImpl W Key Mem) → Type 0
  Ended es r =
      ((ok r.0 ≡ false) × (r.1 ≡ none))
      ⊎ ((db' : DbImpl W Key Mem) × (r.1 ≡ some db') × Durable reader coding be es db')

  pub opened-Durable :
      (es : List Entry) (a : Recovery Key) (t logged : Status × Recovery Key × DbImpl W Key Mem)
      (r : Status × Option (DbImpl W Key Mem))
      → a.edit ≡ []
      → (ok t.0 ≡ false) ⊎ Restored reader coding be es a t.1 t.2
      → ensure_log reader coding be t ≡ some logged
      → finish_open reader coding be
          (start_work reader coding be (install_recovery reader coding be logged))
        ≡ some r
      → Ended es r
  opened-Durable es a t logged r fresh out l end =
      let (s, db) = install_recovery reader coding be logged in
      elim (finish_open_cases s db r end) [
        | inl refused ↦ inl refused
        | inr (db', same, mem, good) ↦
            let good₁ = install_recovery_good logged good in
            elim out [
              | inl bad ↦ absurd (cc (bad, ensure_log_good t logged l good₁))
              | inr restored ↦
                  elim (ensure_log-Logged reader coding be es t logged l
                    (ensure_log_good t logged l good₁)
                    (Logged-Restored reader coding be es a t.1 t.2 fresh restored)) [
                      | inl bad ↦ absurd (cc (bad, good₁))
                      | inr h ↦
                          elim (install_recovery-Durable es logged.0 logged.1 logged.2 good₁ h) [
                            | inl bad ↦ absurd (cc (bad, good))
                            | inr durable ↦ inr (db', same, Durable-mem es db db' mem durable)
                          ]
                    ]
            ]
      ]

-- ===== src/Db/Open/Returns.antt =====
-- `DB::Open` behind a recovery that returns, and its last assertion.
use level_db.Prelude.{
  is_some, ◌<◌, ◌≡◌, ◌⊎◌, refl, ap, ◌∙◌, Bool, true, false, ◌&&◌, Option, none, some, inl, inr,
  arith, ltb, Bool-cases, if◌then◌else◌, assert, ◌>>=◌,
}
use level_db.Status.{Status, ok}
use level_db.Decimal.{NumberReader}
use level_db.Coding.{Coding}
use level_db.FileName.{log_file_name}
use level_db.Db.{DbImpl, Backend}
use level_db.Db.LogFile.{Recovery}
use level_db.Db.Obsolete.{delete_obsolete_files}
use level_db.Db.Obsolete.Kept.{delete_obsolete_files_lem}
use level_db.Db.Schedule.{maybe_schedule_compaction}
use level_db.Db.Startup.{recover}
use level_db.Db.Open.{
  create_log, ensure_log, install_recovery, start_work, finish_open, db_open, no_recovery,
}

bind-assert :
    {A B : Type 0} (b : Bool) (a : A) (f : A → B)
    → b ≡ true
    → (assert b (some a) >>= λ x. some (f x)) ≡ some (f a)
bind-assert true a f h = refl
bind-assert false a f h = absurd (cc)

-- A success comes with a memtable.
abbrev HasMem : {W Key Mem : Type 0} → Status → DbImpl W Key Mem → Type 0
HasMem s db = (ok s ≡ false) ⊎ (is_some db.mem ≡ true)

-- A success with a database that has a memtable, or an error without a database.
abbrev pub Opened : {W Key Mem : Type 0} → Status × Option (DbImpl W Key Mem) → Type 0
Opened (s, none) = ok s ≡ false
Opened (s, some db) = (ok s ≡ true) × (is_some db.mem ≡ true)

module _ {W File Lock Logger Key Mem Compaction : Type 0} (reader : NumberReader)
    (be : Backend W File Lock Logger Key Mem Compaction) where
  mem-maybe_schedule_compaction :
      (db : DbImpl W Key Mem) → (maybe_schedule_compaction reader be db).mem ≡ db.mem
  unfolding maybe_schedule_compaction
  mem-maybe_schedule_compaction db = ground arith

  -- The work that `Open` starts leaves the memtable alone.
  pub mem-started :
      (db : DbImpl W Key Mem)
      → (maybe_schedule_compaction reader be (delete_obsolete_files reader be db)).mem ≡ db.mem
  mem-started db =
      mem-maybe_schedule_compaction (delete_obsolete_files reader be db)
      ∙ ap (λ d. d.mem) (delete_obsolete_files_lem reader be db)

module _ {W File Lock Logger Key Mem Compaction : Type 0} (reader : NumberReader) (coding : Coding)
    (be : Backend W File Lock Logger Key Mem Compaction)
    (keeps : (db : DbImpl W Key Mem) → is_some db.mem ≡ true → is_some (be.others db).mem ≡ true)
    (counts : (w : W) → 0 < (be.new_file_number w).0) where
  abbrev HasMemIn : Status × Recovery Key × DbImpl W Key Mem → Type 0
  HasMemIn r = HasMem r.0 r.2

  -- The end of `create_log`.
  chosen-HasMem :
      (s : Status) (a b : Recovery Key) (c d : DbImpl W Key Mem)
      → is_some c.mem ≡ true
      → HasMemIn (if ok s then (s, a, c) else (s, b, d))
  chosen-HasMem s a b c d h = elim (Bool-cases (ok s)) [
    | inl e ↦ rw e (inr h)
    | inr e ↦ rw e (inl e)
  ]

  create_log_returns :
      (recovery : Recovery Key) (db : DbImpl W Key Mem)
      → (r : Status × Recovery Key × DbImpl W Key Mem) × (create_log reader coding be recovery db
          ≡ some r)
        × HasMemIn r
  unfolding create_log log_file_name
  create_log_returns recovery db =
      let positive : ltb 0 (be.new_file_number db.world).0 ≡ true =
        ground (arith, counts db.world) in
      (
        _,
        bind-assert (ltb 0 (be.new_file_number db.world).0) _ _ positive,
        chosen-HasMem _ _ _ _ _ refl,
      )

  ensure_log_returns :
      (s : Status) (recovery : Recovery Key) (db : DbImpl W Key Mem)
      → (r : Status × Recovery Key × DbImpl W Key Mem) × (ensure_log reader coding be
            (s, recovery, db)
          ≡ some r)
        × HasMemIn r
  unfolding ensure_log
  ensure_log_returns s recovery db = elim (Bool-cases (ok s)) [
    | inr e ↦ ((s, recovery, db), rw e refl, inl e)
    | inl e ↦ elim (Bool-cases (is_some db.mem)) [
      | inl m ↦ ((s, recovery, db), rw (e, m) refl, inr m)
      | inr m ↦ let (r, run, has) = create_log_returns recovery db in (r, rw (e, m) run, has)
    ]
  ]

  install_recovery-HasMem :
      (s : Status) (recovery : Recovery Key) (db : DbImpl W Key Mem)
      → HasMem s db
      → HasMem
          (install_recovery reader coding be (s, recovery, db)).0
          (install_recovery reader coding be (s, recovery, db)).1
  unfolding install_recovery
  install_recovery-HasMem s recovery db h = elim (Bool-cases (ok s && recovery.save_manifest)) [
    | inr e ↦ rw e h
    | inl e ↦ elim h [
      | inl k ↦ absurd (ground (arith, e, k))
      | inr m ↦ rw e (inr (keeps (record db { world = (be.log_and_apply _ db.world).1 }) m))
    ]
  ]

  worked :
      (db : DbImpl W Key Mem)
      → is_some db.mem ≡ true
      → is_some (maybe_schedule_compaction reader be (delete_obsolete_files reader be db)).mem
        ≡ true
  worked db m = ap is_some (mem-started reader be db) ∙ m

  finish_open_returns :
      (s : Status) (db : DbImpl W Key Mem)
      → HasMem s db
      → (r : Status × Option (DbImpl W Key Mem)) × (finish_open reader coding be
            (start_work reader coding be (s, db))
          ≡ some r)
        × Opened r
  unfolding finish_open start_work
  finish_open_returns s db h =
      let next = maybe_schedule_compaction reader be (delete_obsolete_files reader be db) in
      elim (Bool-cases (ok s)) [
        | inr e ↦ ((s, none), rw e refl, e)
        | inl e ↦ elim h [
          | inl k ↦ absurd (cc (e, k))
          | inr m ↦ ((s, some next), rw (e, worked db m) refl, (e, worked db m))
        ]
      ]

  -- If a memtable stays where the other threads run, file numbers are positive, and `Recover`
  -- returns, with a success or an error, then `Open` returns too: a success with a database that
  -- has a memtable, or an error without a database.
  pub db_open_returns :
      (db : DbImpl W Key Mem) (recovered : Status × Recovery Key × DbImpl W Key Mem)
      → recover reader coding be (no_recovery reader coding be) db ≡ some recovered
      → (r : Status × Option (DbImpl W Key Mem)) × (db_open reader coding be db ≡ some r) × Opened r
  unfolding db_open
  db_open_returns db (s, recovery, db₁) h =
      let ((s₁, recovery₁, db₂), logged, has) = ensure_log_returns s recovery db₁ in
      let (s₂, db₃) = install_recovery reader coding be (s₁, recovery₁, db₂) in
      let (r, run, good) =
        finish_open_returns s₂ db₃ (install_recovery-HasMem s₁ recovery₁ db₂ has) in
      (r, rw (h, logged) run, good)

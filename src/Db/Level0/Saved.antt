-- ===== src/Db/Level0/Saved.antt =====
-- When `CompactMemtable` gives up the memtable.
use level_db.Prelude.{
  ℕ, ◌≡◌, ◌⊎◌, inl, inr, refl, sym, ap, ◌∙◌, subst, Bool, true, false, ◌&&◌, [], ◌∷◌, ◌++◌, none,
  some, codes, if◌then◌else◌, arith, Bool-cases, from_some, >>=-eq-some,
}
use level_db.Status.{Status, ok, io_error}
use level_db.Decimal.{NumberReader}
use level_db.Db.{DbImpl, Backend, Edit, EditCall}
use level_db.Db.Obsolete.Kept.{delete_obsolete_files_lem}
use level_db.Db.Level0.{
  record_background_error, start_level0, build_level0, table_written, write_level0_table,
  install_memtable, commit_memtable, compact_memtable,
}
use level_db.Db.Level0.Saves.{Saves, written-Saves}

module _ {W File Lock Logger Key Mem Compaction : Type 0} (reader : NumberReader)
    (be : Backend W File Lock Logger Key Mem Compaction) where
  open be use {env, tables, entries, iter_status, log_and_apply, others}

  -- Other threads leave the memtable alone that is being converted, and the number of the log: they
  -- put no memtable aside while there is one.
  abbrev pub Patient : Type 0
  Patient =
      (db : DbImpl W Key Mem) (mem : Mem)
      → db.imm ≡ some mem
      → ((others db).imm ≡ some mem) × ((others db).logfile_number ≡ db.logfile_number)

  written_kept :
      (mem : Mem) (db db₁ : DbImpl W Key Mem) (s : Status) (edit : Edit Key)
      → Patient
      → db.imm ≡ some mem
      → write_level0_table reader be mem [] (some db.world) db ≡ some (s, edit, db₁)
      → (db₁.imm ≡ some mem) × (db₁.logfile_number ≡ db.logfile_number)
  unfolding write_level0_table table_written start_level0
  written_kept mem db db₁ s edit patient held h =
      let started = start_level0 reader be db in
      let (r, built, same) = >>=-eq-some (build_level0 reader be mem started) _ h in
      let (held₁, log₁) = patient _ mem held in
      let (held₂, log₂) = patient (record started.1 { world = r.2 }) mem held₁ in
      let equal = ap (λ t. t.2) (from_some _ (s, edit, db₁) same) in
      (ap (λ d. d.imm) (sym equal) ∙ held₂, ap (λ d. d.logfile_number) (sym equal) ∙ log₂ ∙ log₁)

  -- The edit of a memtable with the end that `CompactMemtable` adds.
  abbrev pub finished : Edit Key → ℕ → Edit Key
  finished edit log = edit ++ EditCall.set_prev_log_number 0 ∷ EditCall.set_log_number log ∷ []

  -- A version with the contents of the memtable was installed, and the memtable is gone.
  pub record Committed (mem : Mem) (log : ℕ) (db' : DbImpl W Key Mem) : Type 0 where
    pub gone : db'.imm ≡ none
    pub unmarked : db'.has_imm ≡ false
    pub saved :
        (edit : Edit Key) × (w : W) × Saves reader be mem edit
        × (ok (log_and_apply (finished edit log) w).0 ≡ true)

  -- The memtable is still there, and no background work will follow.
  pub record Stopped (mem : Mem) (db' : DbImpl W Key Mem) : Type 0 where
    pub held : db'.imm ≡ some mem
    pub failed : ok db'.bg_error ≡ false

  committed :
      (mem : Mem) (log : ℕ) (s : Status) (db : DbImpl W Key Mem)
      → db.imm ≡ some mem
      → (ok s ≡ true
          → (edit : Edit Key) × (w : W) × Saves reader be mem edit
            × (ok (log_and_apply (finished edit log) w).0 ≡ true))
      → Committed mem log (commit_memtable reader be s db)
        ⊎ Stopped mem (commit_memtable reader be s db)
  unfolding commit_memtable record_background_error
  committed mem log s db held saved = elim (Bool-cases (ok s)) [
    | inl e ↦
        let next = record db { imm = none; has_imm = false } in
        let same = delete_obsolete_files_lem reader be next in
        rw e (
          inl (record {
            gone = ap (λ d. d.imm) same;
            unmarked = ap (λ d. d.has_imm) same;
            saved = saved e;
          }))
    | inr e ↦ rw e (inr (record { held = ground (arith, held); failed = ground (arith, e) }))
  ]

  interrupted :
      (good down : Bool) (s stopped : Status)
      → good ≡ ok s
      → ok stopped ≡ false
      → ok (if good && down then stopped else s) ≡ true
      → ok s ≡ true
  interrupted false down s stopped _ _ e = e
  interrupted true down s stopped same _ e = sym same

  installed :
      (mem : Mem) (s : Status) (edit : Edit Key) (db : DbImpl W Key Mem)
      → Patient
      → db.imm ≡ some mem
      → ((install_memtable reader be (s, edit, db)).1.imm ≡ some mem)
        × ((ok (install_memtable reader be (s, edit, db)).0 ≡ false)
            ⊎ ((ok s ≡ true)
                × (w : W) × (ok (log_and_apply (finished edit db.logfile_number) w).0 ≡ true)))
  unfolding install_memtable
  installed mem s edit db patient held =
      let stopped = io_error (codes "Deleting DB during memtable compaction") [] in
      let s₁ = if ok s && db.shutting_down then stopped else s in
      let (s₂, w) = log_and_apply (finished edit db.logfile_number) db.world in
      elim (Bool-cases (ok s₁)) [
        | inr e ↦ rw e (held, inl e)
        | inl e ↦
            let fine : ok s ≡ true = interrupted (ok s) db.shutting_down s stopped refl refl e in
            rw e (
              (patient (record db { world = w }) mem held).0,
              elim (Bool-cases (ok s₂)) [ inl f ↦ inr (fine, db.world, f) | inr f ↦ inl f ],
            )
      ]

  -- If other threads put no memtable aside while there is one, then `CompactMemtable`, whenever it
  -- returns, either has installed a version with a synced table to which all the entries of the
  -- memtable were added in order, or without one if there are no entries, in which the current log
  -- is the first that counts, and the memtable is gone; or the memtable is still there, and the
  -- error stops the background work.
  pub compact_memtable-Committed :
      (mem : Mem) (db db' : DbImpl W Key Mem)
      → Patient
      → db.imm ≡ some mem
      → compact_memtable reader be db ≡ some db'
      → Committed mem db.logfile_number db' ⊎ Stopped mem db'
  unfolding compact_memtable
  compact_memtable-Committed mem db db' patient held h =
      let (imm, got, rest) = >>=-eq-some db.imm _ h in
      let same_memtable = from_some imm mem (sym got ∙ held) in
      let ((s, edit, db₁), written, same) =
        >>=-eq-some (write_level0_table reader be imm [] (some db.world) db) _ rest in
      let (held₁, log) = written_kept imm db db₁ s edit patient got written in
      let (s₂, db₂) = install_memtable reader be (s, edit, db₁) in
      let (held₂, outcome) = installed imm s edit db₁ patient held₁ in
      let ended = committed imm db.logfile_number s₂ db₂ held₂ (λ good. elim outcome [
        | inl bad ↦ absurd (cc (good, bad))
        | inr (fine, w, applied) ↦ (
          edit,
          w,
          let (added, whole, saves) =
                written-Saves reader be imm [] edit (some db.world) db db₁ s written fine in
              subst (Saves reader be imm) (sym whole) saves,
          subst (λ n. ok (log_and_apply (finished edit n) w).0 ≡ true) log applied,
        )
      ]) in
      subst (λ m. Committed m db.logfile_number db' ⊎ Stopped m db') same_memtable
        (subst (λ d. Committed imm db.logfile_number d ⊎ Stopped imm d)
          (from_some (commit_memtable reader be s₂ db₂) db' same) ended)

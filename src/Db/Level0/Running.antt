-- ===== src/Db/Level0/Running.antt =====
-- The conversion of a memtable inside a background call.
use level_db.Prelude.{
  ◌≡◌, ap, subst, true, false, [], ◌∷◌, none, some, arith, Bool-cases, inl, inr, from_some,
  >>=-eq-some, ◌++◌, Option,
}
use level_db.Status.{Status, ok}
use level_db.Decimal.{NumberReader}
use level_db.Db.{DbImpl, Backend, Edit, EditCall, insert}
use level_db.Db.Obsolete.{delete_obsolete_files}
use level_db.Db.Obsolete.Kept.{delete_obsolete_files_lem}
use level_db.Db.Level0.{
  record_background_error, start_level0, build_level0, write_level0_table, install_memtable,
  commit_memtable, compact_memtable,
}

-- The background call runs: it is marked as scheduled, and no further one is owed.
abbrev pub IsRunning : {W Key Mem : Type 0} → DbImpl W Key Mem → Type 0
IsRunning db = (db.bg_compaction_scheduled ≡ true) × (db.owed_calls ≡ 0)

module _ {W File Lock Logger Key Mem Compaction : Type 0} (reader : NumberReader)
    (be : Backend W File Lock Logger Key Mem Compaction)
    (others_running : (db : DbImpl W Key Mem) → IsRunning db → IsRunning (be.others db)) where
  open be use {log_and_apply, new_file_number}

  pub record_background_error-IsRunning :
      (db : DbImpl W Key Mem) (s : Status)
      → IsRunning db
      → IsRunning (record_background_error reader be db s)
  unfolding record_background_error
  record_background_error-IsRunning db s h = ground arith

  pub delete_obsolete_files-IsRunning :
      (db : DbImpl W Key Mem) → IsRunning db → IsRunning (delete_obsolete_files reader be db)
  delete_obsolete_files-IsRunning db h = rw (delete_obsolete_files_lem reader be db) h

  start_level0-IsRunning :
      (db : DbImpl W Key Mem) → IsRunning db → IsRunning (start_level0 reader be db).1
  unfolding start_level0
  start_level0-IsRunning db h =
      others_running
        (record db {
          world = (new_file_number db.world).1;
          pending_outputs = insert (new_file_number db.world).0 db.pending_outputs;
        })
        h

  write_level0_table-IsRunning :
      (mem : Mem) (edit edit' : Edit Key) (base : Option W) (db db' : DbImpl W Key Mem) (s : Status)
      → IsRunning db
      → write_level0_table reader be mem edit base db ≡ some (s, edit', db')
      → IsRunning db'
  unfolding write_level0_table
  write_level0_table-IsRunning mem edit edit' base db db' s h e =
      let (r, built, same) =
        >>=-eq-some (build_level0 reader be mem (start_level0 reader be db)) _ e in
      subst IsRunning (ap (λ t. t.2) (from_some _ (s, edit', db') same)) (
        others_running (record (start_level0 reader be db).1 { world = r.2 })
          (start_level0-IsRunning db h))

  install_memtable-IsRunning :
      (s : Status) (edit : Edit Key) (db : DbImpl W Key Mem)
      → IsRunning db
      → IsRunning (install_memtable reader be (s, edit, db)).1
  unfolding install_memtable
  install_memtable-IsRunning s edit db h = ground (
    arith,
    others_running
        (record db {
          world =
              (log_and_apply
                (edit
                  ++ EditCall.set_prev_log_number 0
                    ∷ EditCall.set_log_number db.logfile_number
                    ∷ [])
                db.world).1;
        })
        h,
  )

  commit_memtable-IsRunning :
      (s : Status) (db : DbImpl W Key Mem)
      → IsRunning db
      → IsRunning (commit_memtable reader be s db)
  unfolding commit_memtable
  commit_memtable-IsRunning s db h = elim (Bool-cases (ok s)) [
    | inl e ↦ rw e (delete_obsolete_files-IsRunning (record db { imm = none; has_imm = false }) h)
    | inr e ↦ rw e (record_background_error-IsRunning db s h)
  ]

  pub compact_memtable-IsRunning :
      (db db' : DbImpl W Key Mem)
      → IsRunning db
      → compact_memtable reader be db ≡ some db'
      → IsRunning db'
  unfolding compact_memtable
  compact_memtable-IsRunning db db' h e =
      let (imm, held, rest) = >>=-eq-some db.imm _ e in
      let ((s, edit, db₁), written, same) =
        >>=-eq-some (write_level0_table reader be imm [] (some db.world) db) _ rest in
      let (installed_status, installed) = install_memtable reader be (s, edit, db₁) in
      subst IsRunning (from_some _ db' same) (
        commit_memtable-IsRunning installed_status installed (
          install_memtable-IsRunning s edit db₁
            (write_level0_table-IsRunning imm [] edit (some db.world) db db₁ s h written)))

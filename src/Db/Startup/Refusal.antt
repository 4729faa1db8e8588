-- ===== src/Db/Startup/Refusal.antt =====
-- `Recover` on a database that does not exist yet.
use level_db.Prelude.{
  ◌≡◌, ap, sym, if-true, if-false, ◌∙◌, true, false, not, some, Bool-cases, inl, inr, from_some,
  assert-eq-some, >>=-eq-some,
}
use level_db.Status.{Status, ok}
use level_db.Decimal.{NumberReader}
use level_db.Coding.{Coding}
use level_db.FileName.{lock_file_name}
use level_db.Db.{DbImpl, Backend}
use level_db.Db.LogFile.{Recovery}
use level_db.Db.Startup.{new_db, create_new, recover, recover_locked}

module _ {W File Lock Logger Key Mem Compaction : Type 0} (reader : NumberReader) (coding : Coding)
    (be : Backend W File Lock Logger Key Mem Compaction) where
  open be use {env, current_file_name}

  -- The world in which `Recover` looks for CURRENT.
  abbrev pub locked : DbImpl W Key Mem → Status × W
  locked db =
      let r = env.lock_file (lock_file_name db.dbname) (env.create_dir db.dbname db.world).1 in
      (r.0, r.2)

  create_new_refuses :
      (recovery : Recovery Key) (db : DbImpl W Key Mem)
      (r : Status × Recovery Key × DbImpl W Key Mem)
      → create_new reader coding be recovery db ≡ some r
      → ok r.0 ≡ false
  unfolding create_new
  create_new_refuses recovery db r h =
      let ((s, db'), made, same) = >>=-eq-some (new_db reader coding be db) _ h in
      elim (Bool-cases (ok s)) [
        | inl e ↦ ap (λ t. ok t.0) (sym (from_some _ r (rw e at same)))
        | inr e ↦ ap (λ t. ok t.0) (sym (from_some _ r (rw e at same))) ∙ e
      ]

  recover_locked_refuses :
      (recovery : Recovery Key) (db : DbImpl W Key Mem)
      (r : Status × Recovery Key × DbImpl W Key Mem)
      → env.file_exists (current_file_name db.dbname) db.world ≡ false
      → db.create_if_missing ≡ true
      → recover_locked reader coding be recovery db ≡ some r
      → ok r.0 ≡ false
  unfolding recover_locked
  recover_locked_refuses recovery db r missing create h =
      create_new_refuses recovery db r
        (sym (if-true db.create_if_missing _ _ create) ∙ rw missing at h)

  -- If there is no CURRENT when `Recover` has locked the directory and `create_if_missing` is set,
  -- then whenever `Recover` returns, its status is an error: a database is never created, although
  -- `NewDb` may have written its manifest and CURRENT before.
  pub recover_refuses :
      (recovery : Recovery Key) (db : DbImpl W Key Mem)
      (r : Status × Recovery Key × DbImpl W Key Mem)
      → env.file_exists (current_file_name db.dbname) (locked db).1 ≡ false
      → db.create_if_missing ≡ true
      → recover reader coding be recovery db ≡ some r
      → ok r.0 ≡ false
  unfolding recover
  recover_refuses recovery db r missing create h =
      let inner = assert-eq-some (not db.db_locked) _ r h in
      elim (Bool-cases (ok (locked db).0)) [
        | inl e ↦
            recover_locked_refuses recovery (record db { db_locked = true; world = (locked db).1 })
              r missing create (sym (if-true (ok (locked db).0) _ _ e) ∙ inner)
        | inr e ↦
            ap (λ t. ok t.0) (sym (from_some _ r (sym (if-false (ok (locked db).0) _ _ e) ∙ inner)))
            ∙ e
      ]

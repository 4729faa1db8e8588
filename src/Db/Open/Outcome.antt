-- ===== src/Db/Open/Outcome.antt =====
-- What `DB::Open` hands out.
use level_db.Prelude.{
  ◌≡◌, ap, sym, ◌∙◌, true, false, Option, none, some, arith, from_some, >>=-eq-some,
}
use level_db.Status.{Status, ok}
use level_db.Decimal.{NumberReader}
use level_db.Coding.{Coding}
use level_db.Db.{DbImpl, Backend}
use level_db.Db.LogFile.{Recovery}
use level_db.Db.Startup.{recover}
use level_db.Db.Startup.Refusal.{locked, recover_refuses}
use level_db.Db.Open.{ensure_log, install_recovery, start_work, finish_open, db_open, no_recovery}

module _ {W File Lock Logger Key Mem Compaction : Type 0} (reader : NumberReader) (coding : Coding)
    (be : Backend W File Lock Logger Key Mem Compaction) where
  open be use {env, current_file_name}

  -- An error of `Recover` is the result of `Open`.
  ensure_log-error :
      (s : Status) (recovery : Recovery Key) (db : DbImpl W Key Mem)
      (r : Status × Recovery Key × DbImpl W Key Mem)
      → ok s ≡ false
      → ensure_log reader coding be (s, recovery, db) ≡ some r
      → r ≡ (s, recovery, db)
  unfolding ensure_log
  ensure_log-error s recovery db r h e = sym (from_some _ r (rw h at e))

  open_error :
      (s : Status) (recovery : Recovery Key) (db : DbImpl W Key Mem)
      → ok s ≡ false
      → finish_open reader coding be
          (start_work reader coding be (install_recovery reader coding be (s, recovery, db)))
        ≡ some (s, none)
  unfolding finish_open start_work install_recovery
  open_error s recovery db h = ground arith

  -- If there is no CURRENT when `Recover` has locked the directory and `create_if_missing` is set,
  -- then whenever `Open` returns, it returns an error and no database.
  pub db_open_refuses :
      (db : DbImpl W Key Mem) (r : Status × Option (DbImpl W Key Mem))
      → env.file_exists (current_file_name db.dbname) (locked reader coding be db).1 ≡ false
      → db.create_if_missing ≡ true
      → db_open reader coding be db ≡ some r
      → (ok r.0 ≡ false) × (r.1 ≡ none)
  unfolding db_open
  db_open_refuses db r missing create h =
      let ((s, recovery, db₁), recovered, rest) =
        >>=-eq-some (recover reader coding be (no_recovery reader coding be) db) _ h in
      let refused =
        recover_refuses reader coding be (no_recovery reader coding be) db (s, recovery, db₁)
          missing create recovered in
      let (logged, kept, finished) =
        >>=-eq-some (ensure_log reader coding be (s, recovery, db₁)) _ rest in
      let same = ensure_log-error s recovery db₁ logged refused kept in
      let closed =
        ap
          (λ t.
            finish_open reader coding be
              (start_work reader coding be (install_recovery reader coding be t)))
          same
        ∙ open_error s recovery db₁ refused in
      let answer : r ≡ (s, none) = from_some r (s, none) (sym finished ∙ closed) in
      (ap (λ t. ok t.0) answer ∙ refused, ap (λ t. t.1) answer)

-- ===== src/Db/Waits.antt =====
-- `while (...) bg_cv_.Wait();`: the loops of db/dp_impl.cpp that do nothing but wait.
use level_db.Prelude.{
  ℕ, zero, suc, ◌<◌, ◌≡◌, refl, Bool, true, false, Option, none, some, if◌then◌else◌, Bool-cases,
  inl, inr, arith,
}
use level_db.Db.{DbImpl, Backend}

module _ {W File Lock Logger Key Mem Compaction : Type 0}
    (be : Backend W File Lock Logger Key Mem Compaction) where
  -- In a wait the other threads run; `none` means that the fuel ran out.
  pub wait_while : (DbImpl W Key Mem → Bool) → ℕ → DbImpl W Key Mem → Option (DbImpl W Key Mem)
  wait_while test zero db = none
  wait_while test (suc k) db =
      let rest = wait_while test k (be.others db) in if test db then rest else some db

  -- A wait on fuel ends if every round of the other threads brings its end nearer, and keeps what
  -- the other threads keep.
  pub wait_while_ends :
      (test : DbImpl W Key Mem → Bool) (rank : DbImpl W Key Mem → ℕ)
      (Kept : DbImpl W Key Mem → Type 0)
      → ((db : DbImpl W Key Mem) → Kept db → test db ≡ true → rank (be.others db) < rank db)
      → ((db : DbImpl W Key Mem) → Kept db → Kept (be.others db))
      → (k : ℕ) (db : DbImpl W Key Mem) → rank db < k
      → Kept db
      → (r : DbImpl W Key Mem) × (wait_while test k db ≡ some r) × (test r ≡ false) × Kept r
  unfolding wait_while
  wait_while_ends test rank Kept nearer keeps zero db h kept = absurd (omega arith)
  wait_while_ends test rank Kept nearer keeps (suc k) db h kept = elim (Bool-cases (test db)) [
    | inr e ↦ (db, rw e refl, e, kept)
    | inl e ↦
        let (r, run, over, still) =
          wait_while_ends test rank Kept nearer keeps k (be.others db)
            (omega (arith, nearer db kept e)) (keeps db kept) in
        (r, rw e run, over, still)
  ]

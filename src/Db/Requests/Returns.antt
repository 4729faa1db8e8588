-- ===== src/Db/Requests/Returns.antt =====
-- When a request for a compaction returns, and the pointer to it.
use level_db.Prelude.{
  is_some, ℕ, zero, suc, ◌+◌, ◌*◌, ◌≤◌, ◌<◌, ◌≡◌, ◌≢◌, refl, true, false, Option, some, Bytes,
  arith, Bool-cases, inl, inr, if◌then◌else◌,
}
use level_db.Decimal.{NumberReader}
use level_db.Db.{DbImpl, Backend}
use level_db.Db.Schedule.{update, maybe_schedule_compaction}
use level_db.Db.Requests.{
  is_over, is_address, post_request, wait_loop, cancel_request, test_compact_range, new_manual,
}

module _ {W File Lock Logger Key Mem Compaction : Type 0} (reader : NumberReader)
    (be : Backend W File Lock Logger Key Mem Compaction) (a : ℕ) (rank : DbImpl W Key Mem → ℕ)
    (progress : (db : DbImpl W Key Mem)
      → is_over reader be a db ≡ false
      → is_some db.manual_compaction ≡ true
      → rank (be.others db) < rank db)
    (post : (db : DbImpl W Key Mem) → rank (post_request reader be a db) ≤ rank db) where
  posted : (db : DbImpl W Key Mem) → (post_request reader be a db).manual_compaction ≡ some a
  unfolding post_request maybe_schedule_compaction
  posted db = ground arith

  -- Two rounds for each step of the background thread, and two more.
  unfoldable pub needed : DbImpl W Key Mem → ℕ
  needed db = 2 * rank db + (if is_some db.manual_compaction then 1 else 2)

  wait_loop_returns :
      (k : ℕ) (db : DbImpl W Key Mem)
      → needed db ≤ k
      → (r : DbImpl W Key Mem) × (wait_loop reader be k a db ≡ some r)
        × (is_over reader be a r ≡ true)
  unfolding wait_loop needed
  wait_loop_returns zero db h = absurd (ground arith)
  wait_loop_returns (suc k) db h = elim (Bool-cases (is_over reader be a db)) [
    | inl e ↦ (db, rw e refl, e)
    | inr e ↦ elim (Bool-cases (is_some db.manual_compaction)) [
      | inl m ↦
          let (r, run, over) =
            wait_loop_returns k (be.others db) (ground (arith, progress db e m)) in
          (r, rw (e, m) run, over)
      | inr m ↦
          let (r, run, over) =
            wait_loop_returns k (post_request reader be a db)
              (ground (arith, post db, posted db)) in
          (r, rw (e, m) run, over)
    ]
  ]

  cancel_request_lem :
      (db : DbImpl W Key Mem)
      → is_over reader be a db ≡ true
      → ((cancel_request reader be a db).manual_compaction ≢ some a)
        × (is_over reader be a (cancel_request reader be a db) ≡ true)
  unfolding cancel_request is_over
  cancel_request_lem db h = elim (Bool-cases (is_address db.manual_compaction a)) [
    | inl e ↦ rw e ((λ q. cc), h)
    | inr e ↦ rw e ((λ q. ground (arith)), h)
  ]

  -- If every wait of a request that is not over brings the background thread nearer to its end,
  -- and posting a request does not take it back, then `TEST_CompactRange` returns; it is then
  -- done, or the database shuts down, or an error stopped the background work, and
  -- `manual_compaction_` does not point to the request any more.
  pub test_compact_range_returns :
      (level : ℕ) (from to : Option Bytes) (fuel : ℕ) (db : DbImpl W Key Mem)
      → needed (record db { manuals = update db.manuals a (new_manual reader be level from to) })
        ≤ fuel
      → (r : DbImpl W Key Mem) × (test_compact_range reader be fuel a level from to db ≡ some r)
        × (r.manual_compaction ≢ some a)
        × (is_over reader be a r ≡ true)
  unfolding test_compact_range
  test_compact_range_returns level from to fuel db h =
      let (r, run, over) =
        wait_loop_returns fuel
          (record db { manuals = update db.manuals a (new_manual reader be level from to) }) h in
      (
        cancel_request reader be a r,
        rw run refl,
        (cancel_request_lem r over).0,
        (cancel_request_lem r over).1,
      )

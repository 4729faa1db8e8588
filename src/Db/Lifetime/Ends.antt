-- ===== src/Db/Lifetime/Ends.antt =====
-- What the constructor and the destructor leave.
use level_db.Prelude.{
  Bool, Bool-cases, inl, inr, false, ℕ, ◌<◌, ◌≡◌, refl, ◌∙◌, ap, if◌then◌else◌, true, false, some,
  arith,
}
use level_db.Options.Range.{InRange}
use level_db.Db.{DbImpl, Backend}
use level_db.Db.Schedule.OneCall.{OneCall}
use level_db.Db.Waits.{wait_while_ends}
use level_db.Db.Lifetime.{table_cache_size, release_members, destroy}

module _ {W File Lock Logger Key Mem Compaction : Type 0}
    (be : Backend W File Lock Logger Key Mem Compaction) (unlock_db : W → W) (held : W → Bool)
    (unlocks : (w : W) → held (unlock_db w) ≡ false) (rank : DbImpl W Key Mem → ℕ)
    (progress : (db : DbImpl W Key Mem)
      → db.shutting_down ≡ true
      → db.bg_compaction_scheduled ≡ true
      → rank (be.others db) < rank db)
    (stays : (db : DbImpl W Key Mem)
      → (db.shutting_down ≡ true) × OneCall db × (held db.world ≡ db.db_locked)
      → ((be.others db).shutting_down ≡ true)
        × OneCall (be.others db)
        × (held (be.others db).world ≡ (be.others db).db_locked)) where
  release-unlocks :
      (db : DbImpl W Key Mem)
      → held db.world ≡ db.db_locked
      → held (release_members be unlock_db db).world ≡ false
  unfolding release_members
  release-unlocks db h = elim (Bool-cases db.db_locked) [
    | inl e ↦ rw e (unlocks db.world)
    | inr e ↦ rw e (h ∙ e)
  ]

  -- If every wait of a database that shuts down brings the background thread nearer to its end,
  -- no thread takes the mark of the end back, schedules a call without the mark that belongs to it,
  -- or locks or unlocks the directory behind the back of `db_lock_`, and `UnlockFile` gives the lock
  -- of the directory back, then the destructor of a database that owes a call exactly when one is
  -- marked, and holds the lock exactly when `db_lock_` is set, returns; the environment then owes no
  -- call of the background thread, which would use the object, and the lock is no longer held.
  pub destroy_returns :
      (fuel : ℕ) (db : DbImpl W Key Mem)
      → OneCall db
      → held db.world ≡ db.db_locked
      → rank (record db { shutting_down = true }) < fuel
      → (r : DbImpl W Key Mem) × (destroy be unlock_db fuel db ≡ some r)
        × (r.bg_compaction_scheduled ≡ false)
        × (r.owed_calls ≡ 0)
        × (r.shutting_down ≡ true)
        × (held r.world ≡ false)
  unfolding destroy release_members
  destroy_returns fuel db one holds h =
      let (r, run, over, (marked, owed, locks)) =
        wait_while_ends be (λ d. d.bg_compaction_scheduled) rank
          (λ d. (d.shutting_down ≡ true) × OneCall d × (held d.world ≡ d.db_locked))
          (λ d kept e. progress d kept.0 e) stays fuel (record db { shutting_down = true }) h
          (refl, one, holds) in
      (
        release_members be unlock_db r,
        rw run refl,
        over,
        owed ∙ ap (λ b. if b then 1 else 0) over,
        marked,
        release-unlocks r locks,
      )

-- With options that `SanitizeOptions` has clipped, the table cache has room for 64 tables at least.
pub table_cache_size_bounds : (n : ℕ) → InRange 74 50000 n → InRange 64 49990 (table_cache_size n)
unfolding table_cache_size
table_cache_size_bounds n h = omega (arith, h)

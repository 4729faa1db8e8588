-- ===== src/Db/Sample/Waiting.antt =====
-- The waits with a background thread that ends its work in its first turn.
use level_db.Prelude.{
  codes, ◌∷◌, Bool-cases, inl, inr, refl, [], is_some, ℕ, ◌<◌, ◌≤◌, ◌≡◌, ◌≢◌, arith, true, false,
  List, none, some, Bytes, if◌then◌else◌,
}
use level_db.Db.Lifetime.{destroy}
use level_db.Db.Lifetime.Ends.{destroy_returns}
use level_db.Decimal.Reader.{run_reader}
use level_db.Db.{Backend, DbImpl}
use level_db.Slice.{equal}
use level_db.Db.Sample.{World, has, without, sample_backend, sample_db}
use level_db.Db.Schedule.{maybe_schedule_compaction}
use level_db.Db.Requests.{is_over, post_request, new_manual, test_compact_range}
use level_db.Db.Requests.Returns.{needed, test_compact_range_returns}

abbrev State : Type 0
State = DbImpl World Bytes (List (Bytes × Bytes))

abbrev helpful : Backend World ℕ ℕ ℕ Bytes (List (Bytes × Bytes)) ℕ
helpful = record sample_backend {
  others = λ db. record db {
    manuals = λ i. record { level = 1; done = true; begin = none; end = none };
    manual_compaction = none;
  };
}

abbrev open_requests : State → ℕ
open_requests db = if (db.manuals 3).done then 0 else 1

helpful_progress :
    (db : State)
    → is_over run_reader helpful 3 db ≡ false
    → is_some db.manual_compaction ≡ true
    → open_requests (helpful.others db) < open_requests db
unfolding is_over
helpful_progress db h m = ground arith

helpful_post :
    (db : State) → open_requests (post_request run_reader helpful 3 db) ≤ open_requests db
unfolding post_request maybe_schedule_compaction
helpful_post db = ground arith

test_compact_range_returns_example :
    (r : State) × (test_compact_range run_reader helpful 4 3 1 none none sample_db ≡ some r)
    × (r.manual_compaction ≢ some 3)
    × (is_over run_reader helpful 3 r ≡ true)
unfolding needed new_manual
test_compact_range_returns_example =
    test_compact_range_returns run_reader helpful 3 open_requests helpful_progress helpful_post 1
      none none 4 sample_db (omega arith)

-- The background call ends in the first wait.
abbrev ending : Backend World ℕ ℕ ℕ Bytes (List (Bytes × Bytes)) ℕ
ending = record sample_backend {
  others = λ db. record db { bg_compaction_scheduled = false; owed_calls = 0; imm = none };
}

abbrev open_calls : State → ℕ
open_calls db = if db.bg_compaction_scheduled then 1 else 0

-- The lock of the directory is a name in the world.
abbrev lock_name : Bytes
lock_name = codes "lock"

abbrev unlocked : World → World
unlocked w = record w { names = without w.names lock_name }

has_gone : (ns : List Bytes) (f : Bytes) → has (without ns f) f ≡ false
has_gone [] f = refl
has_gone (n ∷ ns) f = elim (Bool-cases (equal n f)) [
  | inl e ↦ rw e (has_gone ns f)
  | inr e ↦ rw (e, e) (has_gone ns f)
]

-- A database that holds the lock.
abbrev locked_db : State
locked_db = record sample_db {
  db_locked = true;
  world = record sample_db.world { names = lock_name ∷ [] };
}

destroy_returns_example :
    (r : State) × (destroy ending unlocked 2 locked_db ≡ some r)
    × (r.bg_compaction_scheduled ≡ false)
    × (r.owed_calls ≡ 0)
    × (r.shutting_down ≡ true)
    × (has r.world.names lock_name ≡ false)
unfolding equal
destroy_returns_example =
    destroy_returns ending unlocked (λ w. has w.names lock_name) (λ w. has_gone w.names lock_name)
      open_calls (λ db h e. ground arith) (λ db h. (h.0, refl, h.2)) 2 locked_db refl refl
      (omega arith)

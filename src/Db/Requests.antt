-- ===== src/Db/Requests.antt =====
-- `TEST_CompactRange`: a request for a compaction, which waits for the background thread. That the
-- level is one below the last, which the function asserts, is left to the caller: the number of
-- levels is not in the repository.
pub mod Returns
use level_db.Prelude.{
  is_some, ℕ, zero, suc, Bool, true, false, ◌||◌, not, Option, none, some, Bytes, ◌==◌,
  if◌then◌else◌, ◌>>=◌,
}
use level_db.Status.{ok}
use level_db.Decimal.{NumberReader}
use level_db.Db.{DbImpl, Backend, ManualCompaction}
use level_db.Db.Schedule.{update, maybe_schedule_compaction}

-- `manual_compaction_ == &manual`
abbrev pub is_address : Option ℕ → ℕ → Bool
is_address none a = false
is_address (some b) a = b == a

module _ {W File Lock Logger Key Mem Compaction : Type 0} (reader : NumberReader)
    (be : Backend W File Lock Logger Key Mem Compaction) where
  open be use {others, first_key, last_key}

  -- The request stands at the address `a`; a null bound is `none`.
  unfoldable pub new_manual : ℕ → Option Bytes → Option Bytes → ManualCompaction Key
  new_manual level from to = record {
    level = level;
    done = false;
    begin = from >>= (λ k. some (first_key k));
    end = to >>= (λ k. some (last_key k));
  }

  unfoldable pub is_over : ℕ → DbImpl W Key Mem → Bool
  is_over a db = (db.manuals a).done || (db.shutting_down || not (ok db.bg_error))

  unfoldable pub post_request : ℕ → DbImpl W Key Mem → DbImpl W Key Mem
  post_request a db = maybe_schedule_compaction reader be (record db { manual_compaction = some a })

  -- The loop; `none` means that the fuel ran out. In a wait the other threads run.
  pub wait_loop : ℕ → ℕ → DbImpl W Key Mem → Option (DbImpl W Key Mem)
  unfolding is_over post_request
  wait_loop zero a db = none
  wait_loop (suc k) a db =
      let waited = wait_loop k a (others db) in
      let posted = wait_loop k a (post_request a db) in
      if is_over a db then some db else if is_some db.manual_compaction then waited else posted

  -- A request that is left is taken back.
  pub cancel_request : ℕ → DbImpl W Key Mem → DbImpl W Key Mem
  cancel_request a db =
      if is_address db.manual_compaction a then record db { manual_compaction = none } else db

  pub test_compact_range :
      ℕ → ℕ → ℕ → Option Bytes → Option Bytes → DbImpl W Key Mem → Option (DbImpl W Key Mem)
  unfolding wait_loop cancel_request new_manual
  test_compact_range fuel a level from to db =
      wait_loop fuel a (record db { manuals = update db.manuals a (new_manual level from to) })
      >>= λ db'. some (cancel_request a db')

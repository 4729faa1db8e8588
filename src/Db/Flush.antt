-- ===== src/Db/Flush.antt =====
-- `Put`, `TEST_CompactMemTable` and `CompactRange`: the requests that go through `Write`, which has
-- a value only where another thread has done the work of the writer. A call that uses the value
-- that is missing ends without a value too.
pub mod Returns
use level_db.Prelude.{
  is_some, ℕ, zero, suc, ◌+◌, ◌-◌, Bool, true, false, ◌&&◌, Option, none, some, Bytes,
  if◌then◌else◌, ◌>>=◌,
}
use level_db.Status.{Status, ok}
use level_db.Decimal.{NumberReader}
use level_db.Coding.{Coding}
use level_db.Batch.{WriteBatch, init, put}
use level_db.Options.{WriteOptions, default_write_options}
use level_db.Db.{DbImpl, Backend}
use level_db.Db.Write.{WriteState, WriteEnd, write}
use level_db.Db.Requests.{test_compact_range}

-- The loop over the levels from `level` on, with the last level so far that passes the test.
pub last_level : (ℕ → Bool) → ℕ → ℕ → ℕ → ℕ
last_level overlaps zero level found = found
last_level overlaps (suc k) level found =
    last_level overlaps k (level + 1) (if overlaps level then level else found)

-- `max_level_with_files`
pub max_level_with_files : (ℕ → Bool) → ℕ → ℕ
unfolding last_level
max_level_with_files overlaps num_levels = last_level overlaps (num_levels - 1) 1 1

module _ {W File Lock Logger Key Mem Compaction : Type 0} (reader : NumberReader) (coding : Coding)
    (be : Backend W File Lock Logger Key Mem Compaction)
    (others : WriteState W Key Mem → WriteState W Key Mem)
    (make_room_for_write : Bool → WriteState W Key Mem → Status × WriteState W Key Mem)
    (build_batch_group : ℕ → WriteState W Key Mem → WriteState W Key Mem) where
  -- `DBImpl::Put` calls `DB::Put`; the writer stands at the address `a`.
  pub db_put :
      ℕ
      → WriteOptions
      → Bytes
      → Bytes
      → ℕ
      → WriteState W Key Mem
      → Option (WriteEnd × WriteState W Key Mem)
  unfolding write
  db_put fuel options key value a s =
      write others make_room_for_write build_batch_group fuel options
        (some (put coding init key value)) a s

  -- The memtable is still to be written, and nothing has gone wrong.
  abbrev pub is_flushing : DbImpl W Key Mem → Bool
  is_flushing db = is_some db.imm && ok db.bg_error

  -- The wait, on fuel; `none` means that the fuel ran out.
  pub await_flush : ℕ → WriteState W Key Mem → Option (WriteState W Key Mem)
  await_flush zero s = none
  await_flush (suc k) s =
      let rest = await_flush k (others s) in if is_flushing s.db then rest else some s

  pub flush_status : Status → WriteState W Key Mem → WriteEnd × WriteState W Key Mem
  flush_status status s =
      (WriteEnd.returned (if is_some s.db.imm then s.db.bg_error else status), s)

  -- Behind the call of `Write`. Where it has no value, the caller has none either.
  pub wait_for_flush :
      ℕ → WriteEnd × WriteState W Key Mem → Option (WriteEnd × WriteState W Key Mem)
  unfolding await_flush flush_status
  wait_for_flush k (WriteEnd.no_value, s) = some (WriteEnd.no_value, s)
  wait_for_flush k (WriteEnd.returned status, s) =
      let waited = await_flush k s in
      if ok status
      then waited >>= (λ s'. some (flush_status status s'))
      else some (WriteEnd.returned status, s)

  -- `TEST_CompactMemTable`, on fuel for the turn of its writer and for its own wait.
  pub test_compact_mem_table :
      ℕ → ℕ → ℕ → WriteState W Key Mem → Option (WriteEnd × WriteState W Key Mem)
  unfolding write wait_for_flush
  test_compact_mem_table fuel k a s =
      write others make_room_for_write build_batch_group fuel default_write_options none a s
      >>= wait_for_flush k

  -- `TEST_CompactRange` on one level after the other; the request stands at the address `a`.
  pub compact_levels :
      ℕ → ℕ → ℕ → ℕ → Option Bytes → Option Bytes → DbImpl W Key Mem → Option (DbImpl W Key Mem)
  compact_levels fuel a zero level from to db = some db
  compact_levels fuel a (suc k) level from to db =
      test_compact_range reader be fuel a level from to db
      >>= compact_levels fuel a k (level + 1) from to

  -- The levels are compacted behind a `TEST_CompactMemTable` that has a value, which is dropped.
  pub compact_behind :
      ℕ
      → ℕ
      → ℕ
      → Option Bytes
      → Option Bytes
      → WriteEnd × WriteState W Key Mem
      → Option (WriteEnd × WriteState W Key Mem)
  unfolding compact_levels
  compact_behind fuel a top from to (WriteEnd.no_value, s) = some (WriteEnd.no_value, s)
  compact_behind fuel a top from to (WriteEnd.returned status, s) = do
    db ← compact_levels fuel a top 0 from to s.db
    some (WriteEnd.returned status, record s { db = db })

  -- `CompactRange`: the writer stands at the address `w`, the requests at `a`.
  pub compact_range :
      ℕ
      → ℕ
      → ℕ
      → ℕ
      → Option Bytes
      → Option Bytes
      → WriteState W Key Mem
      → Option (WriteEnd × WriteState W Key Mem)
  unfolding max_level_with_files test_compact_mem_table compact_behind
  compact_range num_levels fuel w a from to s =
      let top = max_level_with_files (λ l. be.overlap_in_level l from to s.db.world) num_levels in
      test_compact_mem_table fuel fuel w s >>= compact_behind fuel a top from to

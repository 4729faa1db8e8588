-- ===== src/Db/Write.antt =====
-- `DBImpl::Write` and the queue of the writers. The source stops behind `BuildBatchGroup`: nothing
-- is written to the log, no writer leaves the queue, and there is no `return`.
pub mod Stuck
pub mod Turn
use level_db.Prelude.{
  ℕ, zero, suc, Bool, true, false, ◌&&◌, ◌||◌, not, is_some, List, [], ◌∷◌, ◌++◌, Option, none,
  some, ◌==◌, if◌then◌else◌, ◌>>=◌,
}
use level_db.Status.{Status, ok_status, ok}
use level_db.Options.{WriteOptions}
use level_db.Batch.{WriteBatch}
use level_db.Db.{DbImpl}
use level_db.Db.Schedule.{update}

-- `DBImpl::Writer`, without its condition variable.
pub record Writer : Type 0 where
  pub status : Status
  pub batch : Option WriteBatch
  pub sync : Bool
  pub done : Bool

-- The database with `writers_`, a queue of addresses, and the writers that stand there.
pub record WriteState (W Key Mem : Type 0) : Type 0 where
  pub db : DbImpl W Key Mem
  pub writers : List ℕ
  pub writer_at : ℕ → Writer

-- How a call ends: with a status, or at the end of the body, where there is no value.
pub data WriteEnd : Type 0 where
  returned : Status → WriteEnd
  no_value : WriteEnd

-- `&w == writers_.front()`; an empty queue has no front.
abbrev pub is_front : ℕ → List ℕ → Bool
is_front a [] = false
is_front a (b ∷ rest) = b == a

-- What the code relies on: the other threads in `w.cv.wait()`, and `MakeRoomForWrite` and
-- `BuildBatchGroup`, which the repository does not hold.
module _ {W Key Mem : Type 0} (others : WriteState W Key Mem → WriteState W Key Mem)
    (make_room_for_write : Bool → WriteState W Key Mem → Status × WriteState W Key Mem)
    (build_batch_group : ℕ → WriteState W Key Mem → WriteState W Key Mem) where
  -- A writer at the end of the queue.
  unfoldable pub enqueue :
      WriteOptions → Option WriteBatch → ℕ → WriteState W Key Mem → WriteState W Key Mem
  enqueue options my_batch a s = record s {
    writers = s.writers ++ a ∷ [];
    writer_at =
        update s.writer_at a
          (record { status = ok_status; batch = my_batch; sync = options.sync; done = false });
  }

  -- `!w.done && &w != writers_.front()`
  abbrev pub must_wait : ℕ → WriteState W Key Mem → Bool
  must_wait a s = not (s.writer_at a).done && not (is_front a s.writers)

  -- The wait, on fuel; `none` means that the fuel ran out.
  unfoldable pub await_turn : ℕ → ℕ → WriteState W Key Mem → Option (WriteState W Key Mem)
  await_turn zero a s = none
  await_turn (suc k) a s =
      let rest = await_turn k a (others s) in if must_wait a s then rest else some s

  -- Behind the wait.
  unfoldable pub write_front :
      Option WriteBatch → ℕ → WriteState W Key Mem → WriteEnd × WriteState W Key Mem
  write_front my_batch a s =
      if (s.writer_at a).done
      then (WriteEnd.returned (s.writer_at a).status, s)
      else (let (status, s') = make_room_for_write (not (is_some my_batch)) s in
          (
            WriteEnd.no_value,
            (if ok status && is_some my_batch then build_batch_group a s' else s'),
          ))

  unfoldable pub write :
      ℕ
      → WriteOptions
      → Option WriteBatch
      → ℕ
      → WriteState W Key Mem
      → Option (WriteEnd × WriteState W Key Mem)
  unfolding enqueue await_turn write_front
  write fuel options my_batch a s =
      await_turn fuel a (enqueue options my_batch a s) >>= λ s'. some (write_front my_batch a s')

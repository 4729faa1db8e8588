-- ===== src/Db/Sample/Writers.antt =====
-- Two writers, at the addresses 3 and 8, with threads that do nothing, let one writer pass, or do
-- the work of one.
use level_db.Prelude.{
  is_some, ℕ, ◌≡◌, ◌≢◌, ◌<◌, ◌⊎◌, refl, arith, Bool, true, false, List, [], ◌∷◌, none, some, Bytes,
  if◌then◌else◌,
}
use level_db.Status.{Status, ok_status, ok}
use level_db.Options.{default_write_options}
use level_db.Db.Write.{
  Writer, WriteState, WriteEnd, enqueue, must_wait, await_turn, write_front, write,
}
use level_db.Db.Write.Turn.{Awaited, Served, Refused, Grouped, write_ends}
use level_db.Db.Write.Stuck.{write_blocks}
use level_db.Decimal.Reader.{run_reader}
use level_db.Coding.Sample.{little_endian}
use level_db.Db.Schedule.{update}
use level_db.Db.Flush.{test_compact_mem_table}
use level_db.Db.Flush.Returns.{Flushed, test_compact_mem_table_ends}
use level_db.Db.Sample.{World, sample_backend, sample_db}

abbrev State : Type 0
State = WriteState World Bytes (List (Bytes × Bytes))

abbrev no_writer : Writer
no_writer = record { status = ok_status; batch = none; sync = false; done = false }

-- The queue is empty, or the writer at 8 is in it.
abbrev free : State
free = record { db = sample_db; writers = []; writer_at = λ a. no_writer }

abbrev busy : State
busy = record free { writers = 8 ∷ [] }

abbrev resting : State → State
resting s = s

abbrev room : Bool → State → Status × State
room force s = (ok_status, s)

abbrev alone : ℕ → State → State
alone a s = s

-- The other threads let everybody before the writer at 3 pass.
abbrev passing : State → State
passing s = record s { writers = 3 ∷ [] }

abbrev ahead : State → ℕ
ahead s = if must_wait passing room alone 3 s then 1 else 0

abbrev waiting : State
waiting = enqueue passing room alone default_write_options none 3 busy

passing_nearer : (s : State) → must_wait passing room alone 3 s ≡ true → ahead (passing s) < ahead s
passing_nearer s h = ground arith

write_ends_example :
    (t : State) × (r : WriteEnd × State) × (write passing room alone 2 default_write_options none 3
        busy
      ≡ some r)
    × (waiting.writers ≡ 8 ∷ 3 ∷ [])
    × Awaited passing 3 waiting t
    × (Served passing room alone 3 ahead passing_nearer t r
        ⊎ (Refused passing room alone 3 ahead passing_nearer none t r
            ⊎ Grouped passing room alone 3 ahead passing_nearer none t r))
unfolding enqueue
write_ends_example =
    write_ends passing room alone 3 ahead passing_nearer 2 default_write_options none busy
      (omega arith)

abbrev first : ℕ
first = 3

apart : first ≢ 8
apart h = omega (arith, h)

-- The writer at 8 has been at the front.
abbrev left : State
left = enqueue resting room alone default_write_options none 8 free

write_blocks_example : write resting room alone 5 default_write_options none 3 left ≡ none
unfolding write enqueue await_turn write_front
write_blocks_example =
    write_blocks resting room alone 3 8 (λ s h. h) (λ s h. h) (λ force s h. h) (λ s h. h) 1 5
      default_write_options default_write_options none none free left apart refl

-- Another thread does the work of the writer at 3, and the background thread writes the memtable.
abbrev serving : State → State
serving s = record s {
  db = record s.db { imm = none };
  writer_at = update s.writer_at 3 (record no_writer { done = true });
}

abbrev undone : State → ℕ
undone s = if (s.writer_at 3).done then 0 else 1

serving_nearer :
    (s : State) → must_wait serving room alone 3 s ≡ true → undone (serving s) < undone s
serving_nearer s h = ground arith

abbrev open_memtables : State → ℕ
open_memtables s = if is_some s.db.imm then 1 else 0

serving_progress :
    (s : State)
    → is_some s.db.imm ≡ true
    → ok s.db.bg_error ≡ true
    → open_memtables (serving s) < open_memtables s
serving_progress s e f = ground arith

-- Another writer is at the front, and a memtable is to be written.
abbrev flushing : State
flushing = record busy { db = record sample_db { imm = some []; has_imm = true } }

test_compact_mem_table_ends_example :
    (k : ℕ) × (u : WriteEnd × State) × (r : WriteEnd × State) × (write serving room alone 2
        default_write_options none 3 flushing
      ≡ some u)
    × (test_compact_mem_table run_reader little_endian sample_backend serving room alone 2 k 3
          flushing
        ≡ some r)
    × Flushed run_reader little_endian sample_backend serving room alone 3 undone open_memtables
        serving_nearer serving_progress u r
unfolding enqueue
test_compact_mem_table_ends_example =
    test_compact_mem_table_ends run_reader little_endian sample_backend serving room alone 3 undone
      open_memtables serving_nearer serving_progress 2 flushing (omega arith)

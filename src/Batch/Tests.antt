-- ===== src/Batch/Tests.antt =====
-- The theorems on batches at a concrete batch, under the sample codecs.
use level_db.Prelude.{ℕ, ◌≡◌, refl, List, [], ◌∷◌, none, some, Bytes, codes, arith}
use level_db.Status.{Status, ok_status, corruption}
use level_db.Coding.Sample.{little_endian}
use level_db.Batch.{WriteBatch, Handler, init, append, iterate, insert_into, set_contents}
use level_db.Batch.Header.{Op, Holds}
use level_db.Batch.Contents.{apply_ops, init-Holds, apply_ops-Holds, append-Holds}
use level_db.Batch.Iterate.{handle, handle_all, Explains, iterate-Holds, iterate_total}
use level_db.Batch.Refine.{
  Call, table_handler, empty_table, specified_all, call_all, iterate-call_all,
}
use level_db.Batch.Insert.{add_from, insert_into-Holds}

abbrev two_ops : List Op
two_ops = Op.put (codes "k") (codes "v") ∷ Op.delete (codes "k") ∷ []

-- The calls that a handler gets, newest first.
abbrev recorder : Handler (List Op)
recorder = record { put = λ key value s. Op.put key value ∷ s; delete = λ key s. Op.delete key ∷ s }

abbrev log_add : ℕ → ℕ → Bytes → Bytes → List (ℕ × Bytes) → List (ℕ × Bytes)
log_add seq tag key value mem = (seq, key) ∷ mem

small :
    iterate little_endian recorder (record { rep = codes "short" }) []
    ≡ some (corruption (codes "malformed WriteBatch (too small)") [], [])
unfolding iterate
small = refl

refuses_short : set_contents little_endian init (codes "short") ≡ none
unfolding set_contents
refuses_short = refl

two_ops-Holds : Holds little_endian (apply_ops little_endian init two_ops) 0 two_ops
two_ops-Holds =
    apply_ops-Holds little_endian init 0 [] two_ops (init-Holds little_endian) (omega arith)
      (omega arith)

apply_ops-Holds_example : Holds little_endian (apply_ops little_endian init two_ops) 0 two_ops
apply_ops-Holds_example =
    apply_ops-Holds little_endian init 0 [] two_ops (init-Holds little_endian) (omega arith)
      (omega arith)

append-Holds_example :
    (b : WriteBatch) × (append little_endian (apply_ops little_endian init two_ops) init ≡ some b)
    × Holds little_endian b 0 two_ops
append-Holds_example =
    append-Holds little_endian (apply_ops little_endian init two_ops) init 0 0 two_ops []
      two_ops-Holds (init-Holds little_endian) (omega arith)

iterate-Holds_example :
    iterate little_endian recorder (apply_ops little_endian init two_ops) []
    ≡ some (ok_status, Op.delete (codes "k") ∷ Op.put (codes "k") (codes "v") ∷ [])
unfolding handle_all handle
iterate-Holds_example =
    iterate-Holds little_endian recorder (apply_ops little_endian init two_ops) 0 two_ops []
      two_ops-Holds

insert_into-Holds_example :
    insert_into little_endian log_add (apply_ops little_endian init two_ops) []
    ≡ some (ok_status, record { sequence = 2; mem = add_from little_endian log_add 0 two_ops [] })
insert_into-Holds_example =
    insert_into-Holds little_endian log_add (apply_ops little_endian init two_ops) 0 two_ops []
      two_ops-Holds (omega arith)

iterate_total_example :
    (r : Status × List Op) × (iterate little_endian recorder
        (record { rep = codes "a batch, or not" })
        []
      ≡ some r)
    × Explains little_endian recorder (record { rep = codes "a batch, or not" }) 0 [] r
iterate_total_example =
    iterate_total little_endian recorder (record { rep = codes "a batch, or not" }) []

abbrev some_calls : List Call
some_calls =
    Call.change (Op.put (codes "a") (codes "1"))
    ∷ Call.reset
    ∷ Call.number 7
    ∷ Call.change (Op.put (codes "b") (codes "2"))
    ∷ []

iterate-call_all_example :
    iterate little_endian table_handler (call_all little_endian init some_calls) empty_table
    ≡ some (ok_status, specified_all empty_table some_calls)
iterate-call_all_example = iterate-call_all little_endian some_calls (omega arith) (omega arith)

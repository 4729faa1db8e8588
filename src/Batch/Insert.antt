-- ===== src/Batch/Insert.antt =====
-- `InsertInto`, and the sequence numbers of the records.
use level_db.Prelude.{
  ℕ, suc, ◌+◌, ◌^◌, ◌<◌, ◌≡◌, sym, ap, ◌∙◌, List, [], ◌∷◌, some, Bytes, length, arith,
}
use native.Mathlib.Nat.{mod-eq_of_lt, add-zero}
use level_db.Status.{ok_status}
use level_db.Coding.{Coding}
use level_db.Batch.{WriteBatch, Inserter, inserter, insert_into}
use level_db.Batch.Header.{Op, Holds, encode, sequence-layout}
use level_db.Batch.Iterate.{handle, handle_all, iterate-Holds}

module _ (coding : Coding) {M : Type 0} (add : ℕ → ℕ → Bytes → Bytes → M → M) where
  -- One record under its own sequence number; a deletion has no value.
  unfoldable pub add_op : ℕ → Op → M → M
  add_op seq (Op.put key value) mem = add seq coding.type_value key value mem
  add_op seq (Op.delete key) mem = add seq coding.type_deletion key [] mem

  -- The records under the numbers seq, seq + 1, and so on.
  unfoldable pub add_from : ℕ → List Op → M → M
  add_from seq [] mem = mem
  add_from seq (op ∷ ops) mem = add_from (seq + 1) ops (add_op seq op mem)

  handle-add_op :
      (seq : ℕ) (op : Op) (mem : M)
      → seq + 1 < 2 ^ 64
      → handle (inserter coding add) op (record { sequence = seq; mem = mem })
        ≡ record { sequence = seq + 1; mem = add_op seq op mem }
  unfolding handle inserter add_op
  handle-add_op seq (Op.put key value) mem h =
      ap (λ n. record { sequence = n; mem = add seq coding.type_value key value mem })
        (mod-eq_of_lt h)
  handle-add_op seq (Op.delete key) mem h =
      ap (λ n. record { sequence = n; mem = add seq coding.type_deletion key [] mem })
        (mod-eq_of_lt h)

  handle_all-add_from :
      (seq : ℕ) (ops : List Op) (mem : M)
      → seq + length ops < 2 ^ 64
      → handle_all (inserter coding add) ops (record { sequence = seq; mem = mem })
        ≡ record { sequence = seq + length ops; mem = add_from seq ops mem }
  unfolding handle_all add_from
  handle_all-add_from seq [] mem h =
      ap (λ n. record { sequence = n; mem = mem }) (sym (add-zero seq))
  handle_all-add_from seq (op ∷ ops) mem h =
      ap (handle_all (inserter coding add) ops) (handle-add_op seq op mem (omega arith))
      ∙ handle_all-add_from (seq + 1) ops (add_op seq op mem) (omega arith)
      ∙ ap (λ n. record { sequence = n; mem = add_from (seq + 1) ops (add_op seq op mem) }) sum
    where
      sum : seq + 1 + length ops ≡ seq + suc (length ops)
      sum = omega arith

  -- `InsertInto` of a batch that holds given records succeeds and adds them to the memtable in
  -- their order, under consecutive sequence numbers from that of the batch on, as long as these
  -- numbers fit 64 bits.
  pub insert_into-Holds :
      (b : WriteBatch) (seq : ℕ) (ops : List Op) (mem : M)
      → Holds coding b seq ops
      → seq + length ops < 2 ^ 64
      → insert_into coding add b mem
        ≡ some (ok_status, record { sequence = seq + length ops; mem = add_from seq ops mem })
  unfolding insert_into
  insert_into-Holds b seq ops mem h fits =
      iterate-Holds coding (inserter coding add) b seq ops _ h
      ∙ ap (λ (i : Inserter M). some (ok_status, handle_all (inserter coding add) ops i))
          (ap (λ n. record { sequence = n; mem = mem })
            (sequence-layout coding b seq (length ops) (encode coding ops) h.shape h.seq_bound))
      ∙ ap (λ (i : Inserter M). some (ok_status, i)) (handle_all-add_from seq ops mem fits)

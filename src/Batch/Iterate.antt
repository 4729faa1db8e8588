-- ===== src/Batch/Iterate.antt =====
-- The loop of `Iterate`, on any string and on a whole batch.
use level_db.Prelude.{
  ℕ, zero, suc, ◌+◌, ◌%◌, ◌^◌, ◌≤◌, ◌<◌, ◌≡◌, refl, sym, ap, ◌∙◌, List, [], ◌∷◌, ◌++◌, Option, some,
  Bytes, length, drop, All, arith, append_assoc, length-append, ltb, ◌==◌, Bool-cases, Option-cases,
  inl, inr, codes, false, ◌⊎◌, length-drop,
}
use level_db.Status.{Status, ok_status, ok, corruption}
use native.Mathlib.Nat.{mod-eq_of_lt, add-zero}
use level_db.Coding.{Coding}
use level_db.Batch.{
  WriteBatch, Handler, count, header_size, iterate, iterate_loop, finish, put_record, delete_record,
}
use level_db.Batch.Header.{
  Op, IsShort, Holds, encode_op, encode, count-layout, drop_header, length-layout,
}

module _ {ℓ} {S : Type ℓ} (handler : Handler S) where
  -- What a record does to the state of the handler.
  unfoldable pub handle : Op → S → S
  handle (Op.put key value) s = handler.put key value s
  handle (Op.delete key) s = handler.delete key s

  unfoldable pub handle_all : List Op → S → S
  handle_all [] s = s
  handle_all (op ∷ ops) s = handle_all ops (handle op s)

module _ {ℓ} {S : Type ℓ} (coding : Coding) (handler : Handler S) (b : WriteBatch) where
  open coding use {
    prefixed, get_prefixed, get_prefixed_lem, get_prefixed_shrinks, type_value, type_deletion,
    types_differ,
  }

  iterate_record :
      (fuel : ℕ) (op : Op) (rest : Bytes) (found : ℕ) (s : S)
      → IsShort op
      → iterate_loop coding handler b (suc fuel) (encode_op coding op ++ rest) found s
        ≡ iterate_loop coding handler b fuel rest ((found + 1) % 2 ^ 32) (handle handler op s)
  unfolding iterate_loop encode_op handle
  iterate_record fuel (Op.put key value) rest found s h = ground (
    arith,
    append_assoc (prefixed key) (prefixed value) rest,
    get_prefixed_lem key (prefixed value ++ rest) h.0,
    get_prefixed_lem value rest h.1,
  )
  iterate_record fuel (Op.delete key) rest found s h =
      ground (arith, types_differ, get_prefixed_lem key rest h)

  encode_op_pos : (op : Op) (rest : Bytes) → length rest < length (encode_op coding op ++ rest)
  unfolding encode_op
  encode_op_pos (Op.put key value) rest =
      omega (arith, length-append (prefixed key ++ prefixed value) rest)
  encode_op_pos (Op.delete key) rest = omega (arith, length-append (prefixed key) rest)

  iterate_encoded :
      (fuel : ℕ) (ops : List Op) (found : ℕ) (s : S)
      → length (encode coding ops) ≤ fuel
      → All IsShort ops
      → found + length ops < 2 ^ 32
      → iterate_loop coding handler b fuel (encode coding ops) found s
        ≡ finish coding handler b (found + length ops) (handle_all handler ops s)
  unfolding handle_all iterate_loop
  iterate_encoded fuel [] found s h short fits =
      ap (λ n. finish coding handler b n s) (sym (add-zero found))
  iterate_encoded zero (op ∷ ops) found s h short fits =
      absurd (omega (arith, encode_op_pos op (encode coding ops)))
  iterate_encoded (suc fuel) (op ∷ ops) found s h short fits =
      rw (iterate_record fuel op (encode coding ops) found s short.0, mod-eq_of_lt next)
        (iterate_encoded fuel ops (found + 1) (handle handler op s)
            (omega (arith, encode_op_pos op (encode coding ops))) short.1 (omega arith)
          ∙ ap (λ n. finish coding handler b n (handle_all handler ops (handle handler op s))) sum)
    where
      next : found + 1 < 2 ^ 32
      next = omega arith

      sum : found + 1 + length ops ≡ found + suc (length ops)
      sum = omega arith

  -- A result that is explained by records which the handler was given: all that the batch counts,
  -- if the status is a success.
  abbrev pub Explains : ℕ → S → Status × S → Type ℓ
  Explains found s r =
      (ops : List Op) × (r.1 ≡ handle_all handler ops s)
      × ((ok r.0 ≡ false) ⊎ ((found + length ops) % 2 ^ 32 ≡ count coding b))

  abbrev Total : ℕ → S → Option (Status × S) → Type ℓ
  Total found s o = (r : Status × S) × (o ≡ some r) × Explains found s r

  Total-after :
      (op : Op) (found : ℕ) (s : S) (o : Option (Status × S))
      → Total ((found + 1) % 2 ^ 32) (handle handler op s) o
      → Total found s o
  unfolding handle_all
  Total-after op found s o (r, e, (ops, reached, counted)) =
      (r, e, (op ∷ ops, reached, ground arith))

  Total-error : (found : ℕ) (msg : Bytes) (s : S) → Total found s (some (corruption msg [], s))
  unfolding handle_all
  Total-error found msg s = ((corruption msg [], s), refl, ([], refl, inl refl))

  Total-finish :
      (found : ℕ) (s : S) → found < 2 ^ 32 → Total found s (finish coding handler b found s)
  unfolding handle_all finish
  Total-finish found s h = elim (Bool-cases (found == count coding b)) [
    | inl e ↦ rw e ((ok_status, s), refl, ([], refl, inr (ground arith)))
    | inr e ↦ rw e (Total-error found (codes "WriteBatch has wrong count") s)
  ]

  module _ (input : Bytes) (more : Bytes → ℕ → S → Option (Status × S)) (found : ℕ) (s : S)
      (rest_total : (rest : Bytes) (t : S)
        → length rest < length input
        → Total ((found + 1) % 2 ^ 32) t (more rest ((found + 1) % 2 ^ 32) t)) where
    put_record-Total :
        Total found s (put_record coding handler b more input ((found + 1) % 2 ^ 32) s)
    unfolding put_record
    put_record-Total = elim (Option-cases (get_prefixed input)) [
      | inl e ↦ rw (e, put_record) (Total-error found (codes "bad writebatch Put") s)
      | inr ((key, rest), e) ↦ elim (Option-cases (get_prefixed rest)) [
        | inl e' ↦ rw (e, e', put_record) (Total-error found (codes "bad writebatch Put") s)
        | inr ((value, rest'), e') ↦
            rw (e, e', put_record)
              (Total-after (Op.put key value) found s _ (
                unfold handle in
                (rest_total rest' (handler.put key value s) (
                  omega (
                    arith,
                    get_prefixed_shrinks input key rest e,
                    get_prefixed_shrinks rest value rest' e',
                  )))))
      ]
    ]

    delete_record-Total :
        Total found s (delete_record coding handler b more input ((found + 1) % 2 ^ 32) s)
    unfolding delete_record
    delete_record-Total = elim (Option-cases (get_prefixed input)) [
      | inl e ↦ rw (e, delete_record) (Total-error found (codes "bad WriteBatch Delete") s)
      | inr ((key, rest), e) ↦
          rw (e, delete_record)
            (Total-after (Op.delete key) found s _ (
              unfold handle in
              (rest_total rest (handler.delete key s) (get_prefixed_shrinks input key rest e))))
    ]

  iterate_loop-Total :
      (fuel : ℕ) (input : Bytes) (found : ℕ) (s : S)
      → length input ≤ fuel
      → found < 2 ^ 32
      → Total found s (iterate_loop coding handler b fuel input found s)
  unfolding iterate_loop
  iterate_loop-Total fuel [] found s h k = Total-finish found s k
  iterate_loop-Total zero (tag ∷ input) found s h k = absurd (omega arith)
  iterate_loop-Total (suc fuel) (tag ∷ input) found s h k =
      let rest = λ (rest : Bytes) (t : S) (p : length rest < length input).
        iterate_loop-Total fuel rest ((found + 1) % 2 ^ 32) t (omega arith) (omega arith) in
      elim (Bool-cases (tag == type_value)) [
        | inl e ↦ rw e (put_record-Total input (iterate_loop coding handler b fuel) found s rest)
        | inr e ↦ elim (Bool-cases (tag == type_deletion)) [
          | inl e' ↦
              rw (e, e')
                (delete_record-Total input (iterate_loop coding handler b fuel) found s rest)
          | inr e' ↦ rw (e, e') (Total-error found (codes "uknown WriteBatch tag") s)
        ]
      ]

  -- `Iterate` ends on every string of bytes: it returns a status, having handed to the handler the
  -- records of some list in order, and if the status is a success the list is as long as the count
  -- of the batch, modulo 2^32.
  pub iterate_total :
      (s : S) → (r : Status × S) × (iterate coding handler b s ≡ some r) × Explains 0 s r
  unfolding iterate
  iterate_total s = elim (Bool-cases (ltb (length b.rep) header_size)) [
    | inl e ↦ rw e (Total-error 0 (codes "malformed WriteBatch (too small)") s)
    | inr e ↦ rw e (
        iterate_loop-Total (length b.rep) (drop header_size b.rep) 0 s
          (omega (arith, length-drop header_size b.rep)) (omega arith))
  ]

  -- On a batch that holds given records, `Iterate` succeeds and hands exactly these records to the
  -- handler, in the order in which they were added.
  pub iterate-Holds :
      (seq : ℕ) (ops : List Op) (s : S)
      → Holds coding b seq ops
      → iterate coding handler b s ≡ some (ok_status, handle_all handler ops s)
  unfolding iterate finish
  iterate-Holds seq ops s h =
      let size : length b.rep ≡ 12 + length (encode coding ops) =
        ap length h.shape ∙ length-layout coding seq (length ops) (encode coding ops) in
      let body : drop header_size b.rep ≡ encode coding ops =
        ap (drop header_size) h.shape ∙ drop_header coding seq (length ops) (encode coding ops) in
      let fits : length ops < 2 ^ 32 = h.count_bound in
      ground (
        arith,
        ap (λ t. iterate_loop coding handler b (length b.rep) t 0 s) body,
        iterate_encoded (length b.rep) ops 0 s (omega arith) h.short (omega arith),
        count-layout coding b seq (length ops) (encode coding ops) h.shape fits,
      )

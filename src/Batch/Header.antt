-- ===== src/Batch/Header.antt =====
-- The fixed fields of a batch, and the batches that hold given records.
use level_db.Prelude.{
  ℕ, ◌+◌, ◌^◌, ◌<◌, ◌≡◌, refl, sym, ap, subst, ◌∙◌, List, [], ◌∷◌, ◌++◌, Bytes, length, drop, All,
  arith, append_assoc, take-append_length, drop-append_length, length-append,
}
use native.Mathlib.Nat.{mod-eq_of_lt}
use level_db.Coding.{Coding}
use level_db.Batch.{WriteBatch, overwrite, count, set_count, sequence, set_sequence, header_size}

pub overwrite-append :
    (xs old new rest : Bytes)
    → length old ≡ length new
    → overwrite (length xs) new (xs ++ (old ++ rest)) ≡ xs ++ (new ++ rest)
unfolding overwrite
overwrite-append xs old new rest h = rw (
  take-append_length xs (old ++ rest),
  drop-append_length xs (old ++ rest),
  ← h,
  drop-append_length old rest,
)

-- A record of a batch.
pub data Op : Type 0 where
  put : Bytes → Bytes → Op
  delete : Bytes → Op

-- Keys and values have lengths of 32 bits.
abbrev pub IsShort : Op → Type 0
IsShort (put key value) = (length key < 2 ^ 32) × (length value < 2 ^ 32)
IsShort (delete key) = length key < 2 ^ 32

module _ (coding : Coding) where
  open coding use {
    fixed_32, fixed_64, decode_fixed_32, decode_fixed_64, length_32, length_64, decode_32,
    decode_64, zero_32, zero_64, prefixed, type_value, type_deletion,
  }

  unfoldable pub encode_op : Op → Bytes
  encode_op (put key value) = type_value ∷ (prefixed key ++ prefixed value)
  encode_op (delete key) = type_deletion ∷ prefixed key

  abbrev pub encode : List Op → Bytes
  encode [] = []
  encode (op ∷ ops) = encode_op op ++ encode ops

  pub encode-append : (ops more : List Op) → encode (ops ++ more) ≡ encode ops ++ encode more
  encode-append [] more = refl
  encode-append (op ∷ ops) more =
      ap (λ t. encode_op op ++ t) (encode-append ops more)
      ∙ sym (append_assoc (encode_op op) (encode ops) (encode more))

  -- The layout of a batch: sequence number, count, records.
  abbrev pub layout : ℕ → ℕ → Bytes → Bytes
  layout seq n body = fixed_64 seq ++ (fixed_32 n ++ body)

  -- The batch holds the records in this order under this sequence number.
  pub record Holds (b : WriteBatch) (seq : ℕ) (ops : List Op) : Type 0 where
    pub shape : b.rep ≡ layout seq (length ops) (encode ops)
    pub seq_bound : seq < 2 ^ 64
    pub count_bound : length ops < 2 ^ 32
    pub short : All IsShort ops

  drop_sequence : (seq n : ℕ) (body : Bytes) → drop 8 (layout seq n body) ≡ fixed_32 n ++ body
  drop_sequence seq n body =
      subst (λ k. drop k (layout seq n body) ≡ fixed_32 n ++ body) (length_64 seq)
        (drop-append_length (fixed_64 seq) (fixed_32 n ++ body))

  header_length : (seq n : ℕ) → length (fixed_64 seq ++ fixed_32 n) ≡ 12
  header_length seq n =
      omega (arith, length-append (fixed_64 seq) (fixed_32 n), length_64 seq, length_32 n)

  pub drop_header : (seq n : ℕ) (body : Bytes) → drop header_size (layout seq n body) ≡ body
  drop_header seq n body = rw (← append_assoc (fixed_64 seq) (fixed_32 n) body) (
      subst (λ k. drop k ((fixed_64 seq ++ fixed_32 n) ++ body) ≡ body) (header_length seq n)
        (drop-append_length (fixed_64 seq ++ fixed_32 n) body))

  pub length-layout : (seq n : ℕ) (body : Bytes) → length (layout seq n body) ≡ 12 + length body
  length-layout seq n body = omega (
    arith,
    length-append (fixed_64 seq) (fixed_32 n ++ body),
    length-append (fixed_32 n) body,
    length_64 seq,
    length_32 n,
  )

  pub count-layout :
      (b : WriteBatch) (seq n : ℕ) (body : Bytes)
      → b.rep ≡ layout seq n body
      → n < 2 ^ 32
      → count coding b ≡ n
  unfolding count
  count-layout b seq n body e h =
      ap (λ r. decode_fixed_32 (drop 8 r)) e
      ∙ ap decode_fixed_32 (drop_sequence seq n body)
      ∙ decode_32 n body h

  pub sequence-layout :
      (b : WriteBatch) (seq n : ℕ) (body : Bytes)
      → b.rep ≡ layout seq n body
      → seq < 2 ^ 64
      → sequence coding b ≡ seq
  unfolding sequence
  sequence-layout b seq n body e h = rw e (decode_64 seq (fixed_32 n ++ body) h)

  pub set_count-layout :
      (b : WriteBatch) (seq n m : ℕ) (body : Bytes)
      → b.rep ≡ layout seq n body
      → m < 2 ^ 32
      → (set_count coding b m).rep ≡ layout seq m body
  unfolding set_count
  set_count-layout b seq n m body e h =
      rw (e, mod-eq_of_lt h)
        (subst (λ k. overwrite k (fixed_32 m) (layout seq n body) ≡ layout seq m body)
          (length_64 seq)
          (overwrite-append (fixed_64 seq) (fixed_32 n) (fixed_32 m) body
            (length_32 n ∙ sym (length_32 m))))

  pub set_sequence-layout :
      (b : WriteBatch) (seq n seq' : ℕ) (body : Bytes)
      → b.rep ≡ layout seq n body
      → (set_sequence coding b seq').rep ≡ layout seq' n body
  unfolding set_sequence
  set_sequence-layout b seq n seq' body e = rw e (
      overwrite-append [] (fixed_64 seq) (fixed_64 seq') (fixed_32 n ++ body)
        (length_64 seq ∙ sym (length_64 seq')))

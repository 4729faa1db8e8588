-- ===== src/Batch/Contents.antt =====
-- What the operations that build a batch do to the records that it holds.
use level_db.Prelude.{
  ℕ, ◌+◌, ◌^◌, ◌<◌, ◌≡◌, sym, ap, subst, ◌∙◌, List, [], ◌∷◌, ◌++◌, some, Bytes, length, drop, All,
  arith, append_assoc, append-nil, length-append, All-append,
}
use level_db.Coding.{Coding}
use level_db.Batch.{
  WriteBatch, init, clear, count, set_count, sequence, set_sequence, append, set_contents,
  header_size, byte_size,
}
use level_db.Batch
use level_db.Batch.Header.{
  Op, IsShort, Holds, encode_op, encode, encode-append, layout, count-layout, set_count-layout,
  set_sequence-layout, drop_header, length-layout,
}

module _ (coding : Coding) where
  open coding use {fixed_32, fixed_64, zero_32, zero_64, prefixed, type_value, type_deletion}

  -- Appending an encoded record to a batch whose count was raised by one.
  append_record :
      (b : WriteBatch) (seq : ℕ) (ops : List Op) (op : Op)
      → Holds coding b seq ops
      → length ops + 1 < 2 ^ 32
      → (set_count coding b (count coding b + 1)).rep ++ encode_op coding op
        ≡ layout coding seq (length (ops ++ op ∷ [])) (encode coding (ops ++ op ∷ []))
  append_record b seq ops op h fits =
      ap (λ n. (set_count coding b (n + 1)).rep ++ encode_op coding op)
        (count-layout coding b seq (length ops) (encode coding ops) h.shape h.count_bound)
      ∙ ap (λ r. r ++ encode_op coding op)
          (set_count-layout coding b seq (length ops) (length ops + 1) (encode coding ops) h.shape
            fits)
      ∙ simp (append_assoc, encode-append, length-append {0}, append-nil)

  put-Holds :
      (b : WriteBatch) (seq : ℕ) (ops : List Op) (key value : Bytes)
      → Holds coding b seq ops
      → IsShort (Op.put key value)
      → length ops + 1 < 2 ^ 32
      → Holds coding (Batch.put coding b key value) seq (ops ++ Op.put key value ∷ [])
  unfolding Batch.put
  put-Holds b seq ops key value h short fits = record {
    shape = unfold encode_op in (append_record b seq ops (Op.put key value) h fits);
    seq_bound = h.seq_bound;
    count_bound = omega (arith, length-append ops (Op.put key value ∷ []));
    short = All-append IsShort ops (Op.put key value ∷ []) h.short (short, tt);
  }

  delete-Holds :
      (b : WriteBatch) (seq : ℕ) (ops : List Op) (key : Bytes)
      → Holds coding b seq ops
      → IsShort (Op.delete key)
      → length ops + 1 < 2 ^ 32
      → Holds coding (Batch.delete coding b key) seq (ops ++ Op.delete key ∷ [])
  unfolding Batch.delete
  delete-Holds b seq ops key h short fits = record {
    shape = unfold encode_op in (append_record b seq ops (Op.delete key) h fits);
    seq_bound = h.seq_bound;
    count_bound = omega (arith, length-append ops (Op.delete key ∷ []));
    short = All-append IsShort ops (Op.delete key ∷ []) h.short (short, tt);
  }

  pub init-Holds : Holds coding init 0 []
  unfolding init
  init-Holds = record {
    shape = simp (zero_32, zero_64, append-nil);
    seq_bound = omega arith;
    count_bound = omega arith;
    short = tt;
  }

  -- One call of a client that fills a batch.
  pub apply_op : WriteBatch → Op → WriteBatch
  apply_op b (Op.put key value) = Batch.put coding b key value
  apply_op b (Op.delete key) = Batch.delete coding b key

  pub apply_ops : WriteBatch → List Op → WriteBatch
  apply_ops b [] = b
  apply_ops b (op ∷ ops) = apply_ops (apply_op b op) ops

  pub apply_op-Holds :
      (b : WriteBatch) (seq : ℕ) (ops : List Op) (op : Op)
      → Holds coding b seq ops
      → IsShort op
      → length ops + 1 < 2 ^ 32
      → Holds coding (apply_op b op) seq (ops ++ op ∷ [])
  unfolding apply_op
  apply_op-Holds b seq ops (Op.put key value) = put-Holds b seq ops key value
  apply_op-Holds b seq ops (Op.delete key) = delete-Holds b seq ops key

  -- A client that makes these calls of `Put` and `Delete` on a batch adds these records behind
  -- those that the batch holds, and leaves the sequence number, as long as the count fits 32 bits.
  pub apply_ops-Holds :
      (b : WriteBatch) (seq : ℕ) (ops more : List Op)
      → Holds coding b seq ops
      → All IsShort more
      → length ops + length more < 2 ^ 32
      → Holds coding (apply_ops b more) seq (ops ++ more)
  unfolding apply_ops
  apply_ops-Holds b seq ops [] h short fits = subst (Holds coding b seq) (sym (append-nil ops)) h
  apply_ops-Holds b seq ops (op ∷ more) h short fits =
      subst (Holds coding (apply_ops (apply_op b op) more) seq) (append_assoc ops (op ∷ []) more) (
        apply_ops-Holds (apply_op b op) seq (ops ++ op ∷ []) more
          (apply_op-Holds b seq ops op h short.0 (omega arith)) short.1
          (omega (arith, length-append ops (op ∷ []))))

  pub set_sequence-Holds :
      (b : WriteBatch) (seq seq' : ℕ) (ops : List Op)
      → Holds coding b seq ops
      → seq' < 2 ^ 64
      → Holds coding (set_sequence coding b seq') seq' ops
  set_sequence-Holds b seq seq' ops h fits = record {
    shape = set_sequence-layout coding b seq (length ops) seq' (encode coding ops) h.shape;
    seq_bound = fits;
    count_bound = h.count_bound;
    short = h.short;
  }

  append-shape :
      (dst src : WriteBatch) (s t : ℕ) (ops more : List Op)
      → Holds coding dst s ops
      → Holds coding src t more
      → length ops + length more < 2 ^ 32
      → (set_count coding dst (count coding dst + count coding src)).rep ++ drop header_size src.rep
        ≡ layout coding s (length (ops ++ more)) (encode coding (ops ++ more))
  append-shape dst src s t ops more h k fits =
      ap (λ n. (set_count coding dst (n + count coding src)).rep ++ drop header_size src.rep)
        (count-layout coding dst s (length ops) (encode coding ops) h.shape h.count_bound)
      ∙ ap (λ n. (set_count coding dst (length ops + n)).rep ++ drop header_size src.rep)
          (count-layout coding src t (length more) (encode coding more) k.shape k.count_bound)
      ∙ ap (λ r. r ++ drop header_size src.rep)
          (set_count-layout coding dst s (length ops) (length ops + length more) (encode coding ops)
            h.shape fits)
      ∙ ap
          (λ r.
            layout coding s (length ops + length more) (encode coding ops) ++ drop header_size r)
          k.shape
      ∙ simp (drop_header coding, append_assoc, encode-append, length-append {0})

  -- `Append` of two batches whose counts together fit 32 bits succeeds, keeps the sequence number
  -- of the first batch, and yields the records of the first followed by those of the second.
  pub append-Holds :
      (dst src : WriteBatch) (s t : ℕ) (ops more : List Op)
      → Holds coding dst s ops
      → Holds coding src t more
      → length ops + length more < 2 ^ 32
      → (b : WriteBatch) × (append coding dst src ≡ some b) × Holds coding b s (ops ++ more)
  unfolding append
  append-Holds dst src s t ops more h k fits =
      let big : length src.rep ≡ 12 + length (encode coding more) =
        ap length k.shape ∙ length-layout coding t (length more) (encode coding more) in
      (
        record {
          rep =
              (set_count coding dst (count coding dst + count coding src)).rep
              ++ drop header_size src.rep;
        },
        ground arith,
        record {
          shape = append-shape dst src s t ops more h k fits;
          seq_bound = h.seq_bound;
          count_bound = omega (arith, length-append ops more);
          short = All-append IsShort ops more h.short k.short;
        },
      )

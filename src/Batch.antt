-- ===== src/Batch.antt =====
-- db/write_batch.cpp and db/write_batch_internal.h: a batch of updates in one string.
-- Eight bytes of sequence number and four bytes of count are followed by the records: a tag, and a
-- key and for a put a value behind their lengths. The codecs of util/coding.h and the tags of
-- db/dbformat.h are not in the repository and enter as the interface `Coding`.
pub mod Header
pub mod Iterate
pub mod Contents
pub mod Insert
pub mod Refine
pub mod Tests
use level_db.Prelude.{
  ℕ, zero, suc, ◌+◌, ◌-◌, ◌%◌, ◌^◌, ◌≡◌, Bool, true, false, List, [], ◌∷◌, ◌++◌, Option, none, some,
  Bytes, length, take, drop, replicate, codes, ltb, leb, ◌==◌, if◌then◌else◌, assert,
}
use level_db.Status.{Status, ok_status, corruption}
use level_db.Slice.{remove_prefix}
use level_db.Coding.{Coding}

pub record WriteBatch : Type 0 where
  pub rep : Bytes

-- `WriteBatch::Handler` over the state `S` that its methods change.
pub record Handler {ℓ} (S : Type ℓ) : Type ℓ where
  pub put : Bytes → Bytes → S → S
  pub delete : Bytes → S → S

abbrev pub header_size : ℕ
header_size = 12

-- Bytes written over a string from the position `i` on.
pub overwrite : ℕ → Bytes → Bytes → Bytes
overwrite i bytes s = take i s ++ (bytes ++ drop (length bytes) (drop i s))

pub clear : WriteBatch → WriteBatch
clear b = record b { rep = replicate header_size 0 }

-- The constructor.
pub init : WriteBatch
unfolding clear
init = clear (record { rep = [] })

module _ (coding : Coding) where
  open coding use {
    fixed_32, fixed_64, decode_fixed_32, decode_fixed_64, prefixed, get_prefixed, type_value,
    type_deletion,
  }

  -- An `int` is its pattern of 32 bits.
  pub count : WriteBatch → ℕ
  count b = decode_fixed_32 (drop 8 b.rep)

  pub set_count : WriteBatch → ℕ → WriteBatch
  unfolding overwrite
  set_count b n = record b { rep = overwrite 8 (fixed_32 (n % 2 ^ 32)) b.rep }

  pub sequence : WriteBatch → ℕ
  sequence b = decode_fixed_64 b.rep

  pub set_sequence : WriteBatch → ℕ → WriteBatch
  unfolding overwrite
  set_sequence b seq = record b { rep = overwrite 0 (fixed_64 seq) b.rep }

  pub put : WriteBatch → Bytes → Bytes → WriteBatch
  put b key value =
      let b' = set_count b (count b + 1) in
      record b' { rep = b'.rep ++ (type_value ∷ (prefixed key ++ prefixed value)) }

  pub delete : WriteBatch → Bytes → WriteBatch
  delete b key =
      let b' = set_count b (count b + 1) in
      record b' { rep = b'.rep ++ (type_deletion ∷ prefixed key) }

  pub contents : WriteBatch → Bytes
  contents b = b.rep

  pub byte_size : WriteBatch → ℕ
  byte_size b = length b.rep

  unfoldable pub set_contents : WriteBatch → Bytes → Option WriteBatch
  set_contents b s = assert (leb header_size (length s)) (some (record b { rep = s }))

  pub append : WriteBatch → WriteBatch → Option WriteBatch
  append dst src =
      let dst' = set_count dst (count dst + count src) in
      assert (leb header_size (length src.rep))
        (some (record dst' { rep = dst'.rep ++ drop header_size src.rep }))

  module _ {ℓ} {S : Type ℓ} (handler : Handler S) (b : WriteBatch) where
    -- Behind the last record the number of records found is held against the count.
    finish : ℕ → S → Option (Status × S)
    finish found s = some (
      if found == count b then ok_status else corruption (codes "WriteBatch has wrong count") [],
      s,
    )

    -- The two cases of the switch, before the code that goes on behind the record.
    put_record : (Bytes → ℕ → S → Option (Status × S)) → Bytes → ℕ → S → Option (Status × S)
    put_record more input found s = elim (get_prefixed input) [
      | none ↦ some (corruption (codes "bad writebatch Put") [], s)
      | some (key, rest) ↦ elim (get_prefixed rest) [
        | none ↦ some (corruption (codes "bad writebatch Put") [], s)
        | some (value, rest') ↦ more rest' found (handler.put key value s)
      ]
    ]

    delete_record : (Bytes → ℕ → S → Option (Status × S)) → Bytes → ℕ → S → Option (Status × S)
    delete_record more input found s = elim (get_prefixed input) [
      | none ↦ some (corruption (codes "bad WriteBatch Delete") [], s)
      | some (key, rest) ↦ more rest found (handler.delete key s)
    ]

    -- The loop over the records; `none` means that the fuel ran out.
    iterate_loop : ℕ → Bytes → ℕ → S → Option (Status × S)
    unfolding finish put_record delete_record
    iterate_loop fuel [] found s = finish found s
    iterate_loop zero (tag ∷ input) found s = none
    iterate_loop (suc fuel) (tag ∷ input) found s =
        let found' = (found + 1) % 2 ^ 32 in
        let put_case = put_record (iterate_loop fuel) input found' s in
        let delete_case = delete_record (iterate_loop fuel) input found' s in
        if tag == type_value
        then put_case
        else if tag == type_deletion
        then delete_case
        else some (corruption (codes "uknown WriteBatch tag") [], s)

    -- Each round takes a byte at least, so a round for each byte is enough.
    pub iterate : S → Option (Status × S)
    iterate s =
        if ltb (length b.rep) header_size
        then some (corruption (codes "malformed WriteBatch (too small)") [], s)
        else iterate_loop (length b.rep) (drop header_size b.rep) 0 s

-- `MemTable` of db/memtable.h is not in the repository: `add` is its `Add`.
pub record Inserter (M : Type 0) : Type 0 where
  pub sequence : ℕ
  pub mem : M

module _ (coding : Coding) {M : Type 0} (add : ℕ → ℕ → Bytes → Bytes → M → M) where
  inserter : Handler (Inserter M)
  inserter = record {
    put = λ key value i. record {
      sequence = (i.sequence + 1) % 2 ^ 64;
      mem = add i.sequence coding.type_value key value i.mem;
    };
    delete = λ key i. record {
      sequence = (i.sequence + 1) % 2 ^ 64;
      mem = add i.sequence coding.type_deletion key [] i.mem;
    };
  }

  pub insert_into : WriteBatch → M → Option (Status × Inserter M)
  unfolding inserter
  insert_into b mem = iterate coding inserter b (record { sequence = sequence coding b; mem = mem })

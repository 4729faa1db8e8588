-- ===== src/Coding.antt =====
-- The interface to util/coding.h and db/dbformat.h, which are not in the repository, with the
-- documented behaviour that db/write_batch.cpp relies on.
pub mod Sample
use level_db.Prelude.{ℕ, ◌^◌, ◌<◌, ◌≡◌, ◌≢◌, ◌++◌, Option, none, some, Bytes, length, replicate}

pub record Coding : Type 0 where
  -- `EncodeFixed32`, `EncodeFixed64`: the bytes written over the first four or eight of a buffer.
  pub fixed_32 : ℕ → Bytes
  pub fixed_64 : ℕ → Bytes
  pub decode_fixed_32 : Bytes → ℕ
  pub decode_fixed_64 : Bytes → ℕ
  pub length_32 : (n : ℕ) → length (fixed_32 n) ≡ 4
  pub length_64 : (n : ℕ) → length (fixed_64 n) ≡ 8
  pub decode_32 : (n : ℕ) (rest : Bytes) → n < 2 ^ 32 → decode_fixed_32 (fixed_32 n ++ rest) ≡ n
  pub decode_64 : (n : ℕ) (rest : Bytes) → n < 2 ^ 64 → decode_fixed_64 (fixed_64 n ++ rest) ≡ n
  -- Zero is four or eight zero bytes.
  pub zero_32 : fixed_32 0 ≡ replicate 4 0
  pub zero_64 : fixed_64 0 ≡ replicate 8 0
  -- A decoder returns a number of its width.
  pub decode_32_bound : (s : Bytes) → decode_fixed_32 s < 2 ^ 32
  -- `PutLengthPrefixedSlice` appends a slice; `GetLengthPrefixedSlice` takes one off the front of
  -- its input, and never leaves more input than it was given.
  pub prefixed : Bytes → Bytes
  pub get_prefixed : Bytes → Option (Bytes × Bytes)
  pub get_prefixed_lem :
      (key rest : Bytes)
      → length key < 2 ^ 32
      → get_prefixed (prefixed key ++ rest) ≡ some (key, rest)
  pub get_prefixed_shrinks :
      (s key rest : Bytes) → get_prefixed s ≡ some (key, rest) → length rest < length s
  -- The tags of a record.
  pub type_value : ℕ
  pub type_deletion : ℕ
  pub types_differ : type_value ≢ type_deletion

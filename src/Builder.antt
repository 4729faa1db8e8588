-- ===== src/Builder.antt =====
-- db/builder.cpp: `BuildTable` writes the entries of an iterator into a table file. The table
-- builder, the table cache and the decoding of internal keys are not in the repository and enter
-- as the interface `TableOps`. An iterator is the list of entries from its position on, with the
-- status that it has at the end. `none` stands for a failed `assert`.
pub mod Outcome
pub mod Total
pub mod Written
pub mod Ends
pub mod Asserted
pub mod Frame
use level_db.Prelude.{
  ℕ, ◌<◌, ◌≡◌, Bool, true, false, ◌&&◌, List, [], ◌∷◌, Option, none, some, Bytes, ltb,
  if◌then◌else◌, ◌>>=◌, assert,
}
use level_db.Status.{Status, ok_status, ok}
use level_db.FileName.{table_file_name}
use level_db.Env.{Env}

pub record FileMetaData (Key : Type 0) : Type 0 where
  pub number : ℕ
  pub file_size : ℕ
  pub smallest : Key
  pub largest : Key

-- `TableBuilder` over an open file, the check of `TableCache::NewIterator`, and
-- `InternalKey::DecodeFrom`.
pub record TableOps (W File Key : Type 0) : Type 0 where
  pub add : File → Bytes → Bytes → W → W
  pub finish : File → W → Status × W
  pub file_size : File → W → ℕ
  pub open_status : ℕ → ℕ → W → Status × W
  pub decode : Bytes → Key

module _ {W File Lock Logger Key : Type 0} (env : Env W File Lock Logger)
    (ops : TableOps W File Key) where
  -- `if(s.ok()) s = ...`
  abbrev pub and_then : Status × W → (W → Status × W) → Status × W
  and_then (s, w) next = if ok s then next w else (s, w)

  -- The loop over the iterator: it adds each entry, and keeps the last key.
  unfoldable pub add_entries : File → List (Bytes × Bytes) → Key → W → Key × W
  add_entries file [] largest w = (largest, w)
  add_entries file ((key, value) ∷ rest) largest w =
      add_entries file rest (ops.decode key) (ops.add file key value w)

  -- `Finish`, `Sync`, `Close` and the check that the table is usable.
  unfoldable pub finish_table : File → FileMetaData Key → W → Option (Status × FileMetaData Key × W)
  finish_table file meta w =
      let (s, w₁) = ops.finish file w in
      let size = ops.file_size file w₁ in
      let meta' = if ok s then record meta { file_size = size } else meta in
      let (s', w') =
        and_then (and_then (and_then (s, w₁) (env.sync file)) (env.close file))
          (ops.open_status meta'.number meta'.file_size) in
      if ok s then assert (ltb 0 size) (some (s', meta', w')) else some (s', meta', w')

  -- Behind the table: the iterator's own error wins, and a file that is not kept is deleted.
  unfoldable pub keep_or_delete :
      Bytes → Status → Status × FileMetaData Key × W → Status × FileMetaData Key × W
  keep_or_delete fname iter_status (s, meta, w) =
      let s' = if ok iter_status then s else iter_status in
      if ok s' && ltb 0 meta.file_size
      then (s', meta, w)
      else (s', meta, (env.delete_file fname w).1)

  -- The branch of an iterator with an entry, once the file is open.
  unfoldable pub write_table :
      File
      → Bytes
      → Bytes
      → List (Bytes × Bytes)
      → FileMetaData Key
      → W
      → Option (Status × FileMetaData Key × W)
  unfolding add_entries finish_table
  write_table file key value rest meta w =
      let first = ops.decode key in
      let (largest, w') = add_entries file ((key, value) ∷ rest) meta.largest w in
      finish_table file (record meta { smallest = first; largest = largest }) w'

  unfoldable pub build_valid :
      Bytes
      → Status
      → Bytes
      → Bytes
      → List (Bytes × Bytes)
      → FileMetaData Key
      → W
      → Option (Status × FileMetaData Key × W)
  unfolding write_table keep_or_delete
  build_valid fname iter_status key value rest meta w =
      let (s, opened, w₁) = env.new_writable_file fname w in
      if ok s
      then (do
        file ← opened
        r ← write_table file key value rest meta w₁
        some (keep_or_delete fname iter_status r))
      else some (s, meta, w₁)

  unfoldable pub build_entries :
      Bytes
      → Status
      → List (Bytes × Bytes)
      → FileMetaData Key
      → W
      → Option (Status × FileMetaData Key × W)
  unfolding build_valid keep_or_delete
  build_entries fname iter_status [] meta w =
      some (keep_or_delete fname iter_status (ok_status, meta, w))
  build_entries fname iter_status ((key, value) ∷ rest) meta w =
      build_valid fname iter_status key value rest meta w

  -- `entries` is what the iterator holds from `SeekToFirst` on.
  unfoldable pub build_table :
      Bytes
      → List (Bytes × Bytes)
      → Status
      → FileMetaData Key
      → W
      → Option (Status × FileMetaData Key × W)
  unfolding build_entries
  build_table dbname entries iter_status meta w = do
    fname ← table_file_name dbname meta.number
    build_entries fname iter_status entries (record meta { file_size = 0 }) w

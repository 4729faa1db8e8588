-- ===== src/Builder/Total.antt =====
-- When `BuildTable` returns.
use level_db.Prelude.{
  ◌<◌, ◌≡◌, refl, true, List, [], ◌∷◌, some, Bytes, lt→ltb, Bool-cases, inl, inr,
}
use level_db.Status.{Status, ok, ok_status}
use level_db.FileName.{table_file_name}
use level_db.Env.{Env}
use level_db.Builder.{
  FileMetaData, TableOps, finish_table, write_table, add_entries, build_valid, build_entries,
  build_table, keep_or_delete,
}

module _ {W File Lock Logger Key : Type 0} (env : Env W File Lock Logger)
    (ops : TableOps W File Key)
    (opens : (f : Bytes) (w : W)
      → ok (env.new_writable_file f w).0 ≡ true
      → (file : File) × ((env.new_writable_file f w).1 ≡ some file))
    (fills : (file : File) (w : W)
      → ok (ops.finish file w).0 ≡ true
      → 0 < ops.file_size file (ops.finish file w).1) where
  finish_table_total :
      (file : File) (meta : FileMetaData Key) (w : W)
      → (r : Status × FileMetaData Key × W) × (finish_table env ops file meta w ≡ some r)
  unfolding finish_table
  finish_table_total file meta w = elim (Bool-cases (ok (ops.finish file w).0)) [
    | inl e ↦ rw (e, lt→ltb 0 _ (fills file w e)) (_, refl)
    | inr e ↦ rw e (_, refl)
  ]

  write_table_total :
      (file : File) (key value : Bytes) (rest : List (Bytes × Bytes)) (meta : FileMetaData Key)
      (w : W)
      → (r : Status × FileMetaData Key × W) × (write_table env ops file key value rest meta w
          ≡ some r)
  unfolding write_table
  write_table_total file key value rest meta w =
      let (largest, w') = add_entries env ops file ((key, value) ∷ rest) meta.largest w in
      finish_table_total file (record meta { smallest = ops.decode key; largest = largest }) w'

  build_valid_total :
      (fname : Bytes) (iter_status : Status) (key value : Bytes) (rest : List (Bytes × Bytes))
      (meta : FileMetaData Key) (w : W)
      → (r : Status × FileMetaData Key × W) × (build_valid env ops fname iter_status key value rest
            meta w
          ≡ some r)
  unfolding build_valid
  build_valid_total fname iter_status key value rest meta w =
      elim (Bool-cases (ok (env.new_writable_file fname w).0)) [
        | inr e ↦ rw e (_, refl)
        | inl e ↦
            let (file, opened) = opens fname w e in
            let (r, written) =
              write_table_total file key value rest meta (env.new_writable_file fname w).2 in
            rw (e, opened, written) (_, refl)
      ]

  build_entries_total :
      (fname : Bytes) (entries : List (Bytes × Bytes)) (iter_status : Status)
      (meta : FileMetaData Key) (w : W)
      → (r : Status × FileMetaData Key × W) × (build_entries env ops fname iter_status entries meta
            w
          ≡ some r)
  unfolding build_entries
  build_entries_total fname [] iter_status meta w =
      (keep_or_delete env ops fname iter_status (ok_status, meta, w), refl)
  build_entries_total fname ((key, value) ∷ rest) iter_status meta w =
      build_valid_total fname iter_status key value rest meta w

  -- For a positive number `BuildTable` keeps its assertions and returns, where a file that is
  -- opened with success is there and a table that is finished with success is not empty.
  pub build_table_total :
      (dbname : Bytes) (entries : List (Bytes × Bytes)) (iter_status : Status)
      (meta : FileMetaData Key) (w : W)
      → 0 < meta.number
      → (r : Status × FileMetaData Key × W) × (build_table env ops dbname entries iter_status meta w
          ≡ some r)
  unfolding build_table table_file_name
  build_table_total dbname entries iter_status meta w pos =
      rw (lt→ltb 0 meta.number pos)
        (build_entries_total _ entries iter_status (record meta { file_size = 0 }) w)

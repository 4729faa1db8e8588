-- ===== src/Builder/Ends.antt =====
-- How `BuildTable` ends.
use level_db.Prelude.{
  ◌<◌, ◌≡◌, ◌⊎◌, inl, inr, true, false, List, [], some, Bytes, Bool-cases, >>=-eq-some,
}
use level_db.Status.{Status, ok}
use level_db.FileName.{table_file_name}
use level_db.Env.{Env}
use level_db.Builder.{FileMetaData, TableOps, build_table}
use level_db.Builder.Outcome.{Outcome, build_table-Outcome}
use level_db.Builder.Total.{build_table_total}
use level_db.Builder.Written.{IsWritten, build_table-IsWritten}

module _ {W File Lock Logger Key : Type 0} (env : Env W File Lock Logger)
    (ops : TableOps W File Key)
    (opens : (f : Bytes) (w : W)
      → ok (env.new_writable_file f w).0 ≡ true
      → (file : File) × ((env.new_writable_file f w).1 ≡ some file))
    (fills : (file : File) (w : W)
      → ok (ops.finish file w).0 ≡ true
      → 0 < ops.file_size file (ops.finish file w).1) where
  -- For a positive number, where a file that is opened with success is there and a table that is finished with
  -- success is not empty, `BuildTable` keeps its assertions and returns. The file of the table could not be opened and the status is the
  -- error; or the status is a success, the file is kept, and the metadata have the number given, a
  -- positive size and the first and the last key of the iterator, whose status is a success too; or
  -- there is an error or no data, and deleting the file was the last step. A success without an entry apart, all entries were
  -- added to the table in order, and it was finished and synced.
  pub build_table_ends :
      (dbname : Bytes) (entries : List (Bytes × Bytes)) (iter_status : Status)
      (meta : FileMetaData Key) (w : W)
      → 0 < meta.number
      → (fname : Bytes) × (r : Status × FileMetaData Key × W) × (table_file_name dbname meta.number
          ≡ some fname)
        × (build_table env ops dbname entries iter_status meta w ≡ some r)
        × Outcome env ops fname entries iter_status meta.number w r
        × ((ok r.0 ≡ false)
            ⊎ (entries ≡ [])
            ⊎ IsWritten env ops dbname entries meta.number r.1.file_size)
  unfolding build_table
  build_table_ends dbname entries iter_status meta w pos =
      let (r, run) = build_table_total env ops opens fills dbname entries iter_status meta w pos in
      let (fname, named, _) = >>=-eq-some (table_file_name dbname meta.number) _ run in
      (
        fname,
        r,
        named,
        run,
        build_table-Outcome env ops dbname entries iter_status meta w fname r named run,
        elim (Bool-cases (ok r.0)) [
          | inr bad ↦ inl bad
          | inl good ↦
              inr (build_table-IsWritten env ops dbname entries iter_status meta w r run good)
        ],
      )

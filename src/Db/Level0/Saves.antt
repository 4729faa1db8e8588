-- ===== src/Db/Level0/Saves.antt =====
-- When an edit of `WriteLevel10Table` stores the memtable.
use level_db.Prelude.{
  Bytes, append-nil, ℕ, ◌≡◌, inl, inr, refl, sym, ap, ◌∙◌, Bool, true, false, ◌&&◌, [], ◌∷◌, ◌++◌,
  some, ltb, if◌then◌else◌, arith, from_some, >>=-eq-some, Option,
}
use level_db.Status.{Status, ok}
use level_db.Decimal.{NumberReader}
use level_db.FileName.{table_file_name}
use level_db.Builder.{FileMetaData, build_table}
use level_db.Builder.Outcome.{Kept, build_table-Outcome}
use level_db.Db.{DbImpl, Backend, Edit, EditCall}
use level_db.Db.Level0.{start_level0, build_level0, table_written, write_level0_table}
use level_db.Builder.Written.{IsWritten, build_table-IsWritten}

module _ {W File Lock Logger Key Mem Compaction : Type 0} (reader : NumberReader)
    (be : Backend W File Lock Logger Key Mem Compaction) where
  open be use {env, tables, entries, iter_status, log_and_apply, others}

  -- The edit adds a table to which all entries of the memtable were added in order, and which was
  -- finished and synced and has their bounds, or the memtable is empty.
  pub data Saves (mem : Mem) : Edit Key → Type 0 where
    empty : entries mem ≡ [] → Saves mem []
    table :
        (level number : ℕ) (r : Status × FileMetaData Key × W)
        → Kept env tables (entries mem) (iter_status mem) number r
        → (dbname : Bytes) → IsWritten env tables dbname (entries mem) number r.1.file_size
        → Saves mem (EditCall.add_file level r.1 ∷ [])

  -- What `BuildTable` has left for an edit.
  built-Saves :
      (mem : Mem) (db : DbImpl W Key Mem) (number level : ℕ) (r : Status × FileMetaData Key × W)
      → build_level0 reader be mem (number, db) ≡ some r
      → ok r.0 ≡ true
      → Saves mem (if ltb 0 r.1.file_size then EditCall.add_file level r.1 ∷ [] else [])
  unfolding build_level0 build_table
  built-Saves mem db number level r h good =
      let (fname, named, _) = >>=-eq-some (table_file_name db.dbname number) _ h in
      elim (build_table-Outcome env tables db.dbname (entries mem) (iter_status mem) new db.world
        fname r named h) [
          | inl (bad, _) ↦ absurd (cc (bad, good))
          | inr (inl kept) ↦
              let written : ltb 0 r.1.file_size ≡ true = ground (arith, kept.written) in
              elim (build_table-IsWritten env tables db.dbname (entries mem) (iter_status mem) new
                db.world r h good) [
                  | inr whole ↦ rw written (table level number r kept db.dbname whole)
                  | inl nothing ↦
                      let (key, value, rest, some_there, small, large) = kept.bounds in
                      absurd (cc (nothing, some_there))
                ]
          | inr (inr (inl bad, _)) ↦ absurd (cc (bad, good))
          | inr (inr (inr zero, _)) ↦
              let nothing : ltb 0 r.1.file_size ≡ false = ground (arith, zero) in
              elim (build_table-IsWritten env tables db.dbname (entries mem) (iter_status mem) new
                db.world r h good) [
                  | inl none_there ↦ rw nothing (empty none_there)
                  | inr whole ↦ absurd (omega (arith, whole.sized, zero))
                ]
        ]
    where
      new : FileMetaData Key
      new = record { number = number; file_size = 0; smallest = be.no_key; largest = be.no_key }

  appended :
      (good filled : Bool) (edit more : Edit Key)
      → good ≡ true
      → (if good && filled then edit ++ more else edit) ≡ edit ++ (if filled then more else [])
  appended true true edit more h = refl
  appended true false edit more h = sym (append-nil edit)
  appended false filled edit more h = absurd (cc)

  -- `WriteLevel10Table` with success has stored the memtable in what it adds to the edit.
  pub written-Saves :
      (mem : Mem) (edit edit' : Edit Key) (base : Option W) (db db₁ : DbImpl W Key Mem) (s : Status)
      → write_level0_table reader be mem edit base db ≡ some (s, edit', db₁)
      → ok s ≡ true
      → (added : Edit Key) × (edit' ≡ edit ++ added) × Saves mem added
  unfolding write_level0_table table_written
  written-Saves mem edit edit' base db db₁ s h good =
      let started = start_level0 reader be db in
      let (r, built, same) = >>=-eq-some (build_level0 reader be mem started) _ h in
      let equal = from_some _ (s, edit', db₁) same in
      let fine = ap (λ t. ok t.0) equal ∙ good in
      (
        _,
        sym (ap (λ t. t.1) equal) ∙ appended (ok r.0) (ltb 0 r.1.file_size) edit _ fine,
        built-Saves mem started.1 started.0 _ r built fine,
      )

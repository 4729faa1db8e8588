-- ===== src/Builder/Frame.antt =====
-- What `BuildTable` leaves alone: it works on its table file only.
use level_db.Prelude.{
  ℕ, ◌≡◌, subst, List, [], ◌∷◌, some, Bytes, ltb, if◌then◌else◌, ◌&&◌, Bool-cases, inl, inr,
  from_some, >>=-eq-some,
}
use level_db.Status.{Status, ok_status, ok}
use level_db.FileName.{table_file_name}
use level_db.Env.{Env}
use level_db.Builder.{
  FileMetaData, TableOps, and_then, add_entries, finish_table, keep_or_delete, write_table,
  build_valid, build_entries, build_table,
}
use level_db.Builder.Asserted.{asserted}

module _ {W File Lock Logger Key : Type 0} (env : Env W File Lock Logger)
    (ops : TableOps W File Key) where
  -- A property of the other files is kept by what is done to the tables of the database.
  pub record IsKept (dbname : Bytes) (There : W → Type 0) : Type 0 where
    pub opened :
        (n : ℕ) (f : Bytes) (w : W)
        → table_file_name dbname n ≡ some f
        → There w
        → There (env.new_writable_file f w).2
    pub deleted :
        (n : ℕ) (f : Bytes) (w : W)
        → table_file_name dbname n ≡ some f
        → There w
        → There (env.delete_file f w).1
    pub added : (file : File) (k v : Bytes) (w : W) → There w → There (ops.add file k v w)
    pub finished : (file : File) (w : W) → There w → There (ops.finish file w).1
    pub synced : (file : File) (w : W) → There w → There (env.sync file w).1
    pub closed : (file : File) (w : W) → There w → There (env.close file w).1
    pub checked : (n size : ℕ) (w : W) → There w → There (ops.open_status n size w).1

  module _ (dbname : Bytes) (There : W → Type 0) (kept : IsKept dbname There) where
    and_then-There :
        (r : Status × W) (next : W → Status × W)
        → There r.1
        → ((w : W) → There w → There (next w).1)
        → There (and_then env ops r next).1
    and_then-There (s, w) next h keeps = elim (Bool-cases (ok s)) [
      | inl e ↦ rw e (keeps w h)
      | inr e ↦ rw e h
    ]

    add_entries-There :
        (file : File) (entries : List (Bytes × Bytes)) (k : Key) (w : W)
        → There w
        → There (add_entries env ops file entries k w).1
    unfolding add_entries
    add_entries-There file [] k w h = h
    add_entries-There file ((key, value) ∷ rest) k w h =
        add_entries-There file rest (ops.decode key) (ops.add file key value w)
          (kept.added file key value w h)

    finish_table-There :
        (file : File) (meta : FileMetaData Key) (w : W) (r : Status × FileMetaData Key × W)
        → finish_table env ops file meta w ≡ some r
        → There w
        → There r.2
    unfolding finish_table
    finish_table-There file meta w r h there =
        let (s, w₁) = ops.finish file w in
        let size = ops.file_size file w₁ in
        let meta' = if ok s then record meta { file_size = size } else meta in
        let synced = and_then env ops (s, w₁) (env.sync file) in
        let closed = and_then env ops synced (env.close file) in
        let (s', w') = and_then env ops closed (ops.open_status meta'.number meta'.file_size) in
        subst (λ (t : Status × FileMetaData Key × W). There t.2)
          (asserted (ok s) (ltb 0 size) (s', meta', w') r h)
          (and_then-There closed (ops.open_status meta'.number meta'.file_size)
            (and_then-There synced (env.close file)
              (and_then-There (s, w₁) (env.sync file) (kept.finished file w there)
                (kept.synced file))
              (kept.closed file))
            (kept.checked meta'.number meta'.file_size))

    keep_or_delete-There :
        (n : ℕ) (fname : Bytes) (iter_status : Status) (r : Status × FileMetaData Key × W)
        → table_file_name dbname n ≡ some fname
        → There r.2
        → There (keep_or_delete env ops fname iter_status r).2
    unfolding keep_or_delete
    keep_or_delete-There n fname iter_status (s, meta, w) named h =
        let s' = if ok iter_status then s else iter_status in
        elim (Bool-cases (ok s' && ltb 0 meta.file_size)) [
          | inl e ↦ rw e h
          | inr e ↦ rw e (kept.deleted n fname w named h)
        ]

    build_valid-There :
        (n : ℕ) (fname : Bytes) (iter_status : Status) (key value : Bytes)
        (rest : List (Bytes × Bytes)) (meta : FileMetaData Key) (w : W)
        (r : Status × FileMetaData Key × W)
        → table_file_name dbname n ≡ some fname
        → build_valid env ops fname iter_status key value rest meta w ≡ some r
        → There w
        → There r.2
    unfolding build_valid write_table
    build_valid-There n fname iter_status key value rest meta w r named h there =
        let (s, opened, w₁) = env.new_writable_file fname w in
        let there₁ = kept.opened n fname w named there in
        elim (Bool-cases (ok s)) [
          | inr e ↦
              subst (λ (t : Status × FileMetaData Key × W). There t.2) (from_some _ r (rw e at h))
                there₁
          | inl e ↦
              let (file, got, rest') = >>=-eq-some opened _ (rw e at h) in
              let (written, run, same) =
                >>=-eq-some (write_table env ops file key value rest meta w₁) _ rest' in
              subst (λ (t : Status × FileMetaData Key × W). There t.2)
                (from_some (keep_or_delete env ops fname iter_status written) r same)
                (keep_or_delete-There n fname iter_status written named (
                  finish_table-There file _ _ written run
                    (add_entries-There file ((key, value) ∷ rest) meta.largest w₁ there₁)))
        ]

    -- `BuildTable` keeps what the operations on table files keep.
    pub build_table-There :
        (entries : List (Bytes × Bytes)) (iter_status : Status) (meta : FileMetaData Key) (w : W)
        (r : Status × FileMetaData Key × W)
        → build_table env ops dbname entries iter_status meta w ≡ some r
        → There w
        → There r.2
    unfolding build_table build_entries
    build_table-There [] iter_status meta w r h there =
        let (fname, named, same) = >>=-eq-some (table_file_name dbname meta.number) _ h in
        subst (λ (t : Status × FileMetaData Key × W). There t.2) (from_some _ r same)
          (keep_or_delete-There meta.number fname iter_status
            (ok_status, record meta { file_size = 0 }, w) named there)
    build_table-There ((key, value) ∷ rest) iter_status meta w r h there =
        let (fname, named, run) = >>=-eq-some (table_file_name dbname meta.number) _ h in
        build_valid-There meta.number fname iter_status key value rest _ w r named run there

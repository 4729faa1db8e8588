-- ===== src/Builder/Written.antt =====
-- A table with entries that `BuildTable` builds with success, and the disk.
use level_db.Prelude.{
  ℕ, ◌<◌, ◌≡◌, ◌⊎◌, inl, inr, refl, sym, ap, subst, ◌∙◌, true, ◌&&◌, List, [], ◌∷◌, some, Bytes,
  ltb, if◌then◌else◌, arith, Bool-cases, from_some, >>=-eq-some,
}
use level_db.Status.{Status, ok}
use level_db.FileName.{table_file_name}
use level_db.Env.{Env}
use level_db.Builder.{
  FileMetaData, TableOps, and_then, add_entries, finish_table, keep_or_delete, write_table,
  build_valid, build_entries, build_table,
}
use level_db.Builder.Asserted.{asserted}

module _ {W File Lock Logger Key : Type 0} (env : Env W File Lock Logger)
    (ops : TableOps W File Key) where
  -- A table file of this number was opened, all the entries were added to it in order, and it was
  -- finished and synced with success, and is not empty.
  pub record IsWritten (dbname : Bytes) (entries : List (Bytes × Bytes)) (number size : ℕ)
      : Type 0 where
    pub fname : Bytes
    pub file : File
    pub before : W
    pub first : Key
    pub named : table_file_name dbname number ≡ some fname
    pub opened : (env.new_writable_file fname before).1 ≡ some file
    pub finished :
        ok
          (ops.finish file
            (add_entries env ops file entries first (env.new_writable_file fname before).2).1).0
        ≡ true
    pub synced :
        ok
          (env.sync file
            (ops.finish file
              (add_entries env ops file entries first
                (env.new_writable_file fname before).2).1).1).0
        ≡ true
    pub sized : 0 < size

  and_then_good :
      (r : Status × W) (next : W → Status × W)
      → ok (and_then env ops r next).0 ≡ true
      → (ok r.0 ≡ true) × (ok (next r.1).0 ≡ true)
  and_then_good (s, w) next h = elim (Bool-cases (ok s)) [
    | inl e ↦ (e, rw e at h)
    | inr e ↦ absurd (cc (e, rw e at h))
  ]

  finish_table-written :
      (file : File) (meta : FileMetaData Key) (w : W) (r : Status × FileMetaData Key × W)
      → finish_table env ops file meta w ≡ some r
      → ok r.0 ≡ true
      → (0 < r.1.file_size)
        × (ok (ops.finish file w).0 ≡ true)
        × (ok (env.sync file (ops.finish file w).1).0 ≡ true)
  unfolding finish_table
  finish_table-written file meta w r h good =
      let (s, w₁) = ops.finish file w in
      let size = ops.file_size file w₁ in
      let meta' = if ok s then record meta { file_size = size } else meta in
      let synced = and_then env ops (s, w₁) (env.sync file) in
      let closed = and_then env ops synced (env.close file) in
      let (s', w') = and_then env ops closed (ops.open_status meta'.number meta'.file_size) in
      let same = asserted (ok s) (ltb 0 size) (s', meta', w') r h in
      let usable =
        and_then_good closed (ops.open_status meta'.number meta'.file_size)
          (ap (λ (t : Status × FileMetaData Key × W). ok t.0) same ∙ good) in
      let kept = and_then_good synced (env.close file) usable.0 in
      let (finished, on_disk) = and_then_good (s, w₁) (env.sync file) kept.0 in
      (ground arith, finished, on_disk)

  keep_or_delete-status :
      (fname : Bytes) (iter_status : Status) (r : Status × FileMetaData Key × W)
      → ok (keep_or_delete env ops fname iter_status r).0 ≡ true
      → (ok r.0 ≡ true) × ((keep_or_delete env ops fname iter_status r).1 ≡ r.1)
  unfolding keep_or_delete
  keep_or_delete-status fname iter_status (s, meta, w) good = elim (Bool-cases (ok iter_status)) [
    | inr e ↦ absurd (ground (arith, e, good))
    | inl e ↦ elim (Bool-cases (ok s && ltb 0 meta.file_size)) [
      | inl k ↦ rw (e, k) (ground (arith, k), refl)
      | inr k ↦ rw (e, k) (rw (e, k) at good, refl)
    ]
  ]

  build_valid-IsWritten :
      (dbname fname key value : Bytes) (rest : List (Bytes × Bytes)) (iter_status : Status)
      (meta : FileMetaData Key) (w : W) (r : Status × FileMetaData Key × W)
      → table_file_name dbname meta.number ≡ some fname
      → build_valid env ops fname iter_status key value rest meta w ≡ some r
      → ok r.0 ≡ true
      → IsWritten dbname ((key, value) ∷ rest) meta.number r.1.file_size
  unfolding build_valid write_table
  build_valid-IsWritten dbname fname key value rest iter_status meta w r named h good =
      let opening = env.new_writable_file fname w in
      elim (Bool-cases (ok opening.0)) [
        | inr e ↦ absurd (cc (e, good, ap (λ t. ok t.0) (from_some _ r (rw e at h))))
        | inl e ↦
            let (file, f, rest') = >>=-eq-some opening.1 _ (rw e at h) in
            let (written, g, same) =
              >>=-eq-some (write_table env ops file key value rest meta opening.2) _ rest' in
            let equal = from_some (keep_or_delete env ops fname iter_status written) r same in
            let (fine, kept) =
              keep_or_delete-status fname iter_status written (ap (λ t. ok t.0) equal ∙ good) in
            let (size, finished, synced) = finish_table-written file _ _ written g fine in
            record {
              fname = fname;
              file = file;
              before = w;
              first = meta.largest;
              named = named;
              opened = f;
              finished = finished;
              synced = synced;
              sized = subst (λ m. 0 < m.file_size) (sym kept ∙ ap (λ t. t.1) equal) size;
            }
      ]

  -- Where `BuildTable` succeeds, there is a table of all the entries, or there are none.
  pub build_table-IsWritten :
      (dbname : Bytes) (entries : List (Bytes × Bytes)) (iter_status : Status)
      (meta : FileMetaData Key) (w : W) (r : Status × FileMetaData Key × W)
      → build_table env ops dbname entries iter_status meta w ≡ some r
      → ok r.0 ≡ true
      → (entries ≡ []) ⊎ IsWritten dbname entries meta.number r.1.file_size
  unfolding build_table build_entries
  build_table-IsWritten dbname [] iter_status meta w r h good = inl refl
  build_table-IsWritten dbname ((key, value) ∷ rest) iter_status meta w r h good =
      let (fname, named, built) = >>=-eq-some (table_file_name dbname meta.number) _ h in
      inr (
        build_valid-IsWritten dbname fname key value rest iter_status
          (record meta { file_size = 0 }) w r named built good)

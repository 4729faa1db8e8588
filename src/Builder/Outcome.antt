-- ===== src/Builder/Outcome.antt =====
-- The three ways in which `BuildTable` returns.
use level_db.Prelude.{
  ℕ, ◌<◌, ◌≡◌, refl, ◌∙◌, subst, true, false, List, [], ◌∷◌, some, Bytes, ltb, arith, ◌⊎◌, inl, inr,
  Bool-cases, Option-cases, from_some,
}
use level_db.Status.{Status, ok_status, ok}
use level_db.FileName.{table_file_name}
use level_db.Env.{Env}
use level_db.Builder.{
  FileMetaData, TableOps, add_entries, finish_table, keep_or_delete, write_table, build_valid,
  build_entries, build_table,
}

-- The key of the last entry, and that of the entry before the list if it is empty.
pub last_key : Bytes → List (Bytes × Bytes) → Bytes
last_key key [] = key
last_key key ((k, v) ∷ rest) = last_key k rest

module _ {W File Lock Logger Key : Type 0} (env : Env W File Lock Logger)
    (ops : TableOps W File Key) where
  largest-add_entries :
      (file : File) (key value : Bytes) (rest : List (Bytes × Bytes)) (k : Key) (w : W)
      → (add_entries env ops file ((key, value) ∷ rest) k w).0 ≡ ops.decode (last_key key rest)
  unfolding add_entries last_key
  largest-add_entries file key value [] k w = refl
  largest-add_entries file key value ((k', v) ∷ rest) k w =
      largest-add_entries file k' v rest (ops.decode key) (ops.add file key value w)

  -- The file of the table was kept: all went well, and the bounds are those of the entries.
  pub record Kept (entries : List (Bytes × Bytes)) (iter_status : Status) (number : ℕ)
      (r : Status × FileMetaData Key × W) : Type 0 where
    pub success : ok r.0 ≡ true
    pub iterated : ok iter_status ≡ true
    pub written : 0 < r.1.file_size
    pub numbered : r.1.number ≡ number
    pub bounds :
        (key : Bytes) × (value : Bytes) × (rest : List (Bytes × Bytes)) × (entries
          ≡ (key, value) ∷ rest)
        × (r.1.smallest ≡ ops.decode key)
        × (r.1.largest ≡ ops.decode (last_key key rest))

  -- The file could not be opened, or it was kept, or it was deleted at the end.
  abbrev pub Outcome :
      Bytes → List (Bytes × Bytes) → Status → ℕ → W → Status × FileMetaData Key × W → Type 0
  Outcome fname entries iter_status number w r =
      ((ok r.0 ≡ false) × (ok (env.new_writable_file fname w).0 ≡ false))
      ⊎ Kept entries iter_status number r
      ⊎ (((ok r.0 ≡ false) ⊎ (r.1.file_size ≡ 0)) × ((v : W) × (r.2 ≡ (env.delete_file fname v).1)))

  finish_table_meta :
      (file : File) (meta meta' : FileMetaData Key) (s : Status) (w w' : W)
      → finish_table env ops file meta w ≡ some (s, meta', w')
      → (meta'.number ≡ meta.number)
        × (meta'.smallest ≡ meta.smallest)
        × (meta'.largest ≡ meta.largest)
  unfolding finish_table
  finish_table_meta file meta meta' s w w' h = ground arith

  write_table_meta :
      (file : File) (key value : Bytes) (rest : List (Bytes × Bytes))
      (meta meta' : FileMetaData Key) (s : Status) (w w' : W)
      → write_table env ops file key value rest meta w ≡ some (s, meta', w')
      → (meta'.number ≡ meta.number)
        × (meta'.smallest ≡ ops.decode key)
        × (meta'.largest ≡ ops.decode (last_key key rest))
  unfolding write_table
  write_table_meta file key value rest meta meta' s w w' h =
      let (n, small, large) = finish_table_meta file _ meta' s _ w' h in
      (n, small, large ∙ largest-add_entries file key value rest meta.largest w)

  keep_or_delete-Outcome :
      (fname key value : Bytes) (rest : List (Bytes × Bytes)) (iter_status s : Status)
      (meta : FileMetaData Key) (w v : W) (number : ℕ)
      → meta.number ≡ number
      → meta.smallest ≡ ops.decode key
      → meta.largest ≡ ops.decode (last_key key rest)
      → Outcome fname
          ((key, value) ∷ rest)
          iter_status
          number
          v
          (keep_or_delete env ops fname iter_status (s, meta, w))
  unfolding keep_or_delete
  keep_or_delete-Outcome fname key value rest iter_status s meta w v number n small large =
      elim (Bool-cases (ok iter_status)) [
        | inr e ↦ rw (e, e) (inr (inr (inl e, (w, refl))))
        | inl e ↦ elim (Bool-cases (ok s)) [
          | inr f ↦ rw (e, f) (inr (inr (inl f, (w, refl))))
          | inl f ↦ elim (Bool-cases (ltb 0 meta.file_size)) [
            | inl g ↦
                rw (e, f, g)
                  (inr (
                    inl (record {
                      success = f;
                      iterated = e;
                      written = ground arith;
                      numbered = n;
                      bounds = (key, value, rest, refl, small, large);
                    })))
            | inr g ↦ rw (e, f, g) (inr (inr (inr (ground arith), (w, refl))))
          ]
        ]
      ]

  keep_or_delete_empty :
      (fname : Bytes) (iter_status : Status) (meta : FileMetaData Key) (w v : W) (number : ℕ)
      → meta.file_size ≡ 0
      → Outcome fname [] iter_status number v
          (keep_or_delete env ops fname iter_status (ok_status, meta, w))
  unfolding keep_or_delete
  keep_or_delete_empty fname iter_status meta w v number h =
      let none_written : ltb 0 meta.file_size ≡ false = ground arith in
      elim (Bool-cases (ok iter_status)) [
        | inr e ↦ rw (e, e) (inr (inr (inr h, (w, refl))))
        | inl e ↦ rw (e, none_written) (inr (inr (inr h, (w, refl))))
      ]

  build_valid-Outcome :
      (fname key value : Bytes) (rest : List (Bytes × Bytes)) (iter_status : Status)
      (meta : FileMetaData Key) (w : W) (r : Status × FileMetaData Key × W)
      → build_valid env ops fname iter_status key value rest meta w ≡ some r
      → Outcome fname ((key, value) ∷ rest) iter_status meta.number w r
  unfolding build_valid
  build_valid-Outcome fname key value rest iter_status meta w r h =
      let opening = env.new_writable_file fname w in
      elim (Bool-cases (ok opening.0)) [
        | inr e ↦ inl (ground arith, e)
        | inl e ↦ elim (Option-cases opening.1) [
          | inl f ↦ absurd (cc (rw (e, f) at h))
          | inr (file, f) ↦
              elim (Option-cases (write_table env ops file key value rest meta opening.2)) [
                | inl g ↦ absurd (cc (rw (e, f, g) at h))
                | inr ((s, meta', w'), g) ↦
                    let (n, small, large) =
                      write_table_meta file key value rest meta meta' s opening.2 w' g in
                    subst (Outcome fname ((key, value) ∷ rest) iter_status meta.number w)
                      (from_some _ r (rw (e, f, g) at h))
                      (keep_or_delete-Outcome fname key value rest iter_status s meta' w' w
                        meta.number n small large)
              ]
        ]
      ]

  build_entries-Outcome :
      (fname : Bytes) (entries : List (Bytes × Bytes)) (iter_status : Status)
      (meta : FileMetaData Key) (w : W) (r : Status × FileMetaData Key × W)
      → meta.file_size ≡ 0
      → build_entries env ops fname iter_status entries meta w ≡ some r
      → Outcome fname entries iter_status meta.number w r
  unfolding build_entries
  build_entries-Outcome fname [] iter_status meta w r z h =
      subst (Outcome fname [] iter_status meta.number w) (from_some _ r h)
        (keep_or_delete_empty fname iter_status meta w w meta.number z)
  build_entries-Outcome fname ((key, value) ∷ rest) iter_status meta w r z h =
      build_valid-Outcome fname key value rest iter_status meta w r h

  -- Whenever `BuildTable` returns, the file of the table could not be opened and the status is the
  -- error; or the status is a success, the file is kept, and the metadata have the number given, a
  -- positive size and the first and the last key of the iterator, whose status is a success too; or
  -- there is an error or no data, and deleting the file was the last step.
  pub build_table-Outcome :
      (dbname : Bytes) (entries : List (Bytes × Bytes)) (iter_status : Status)
      (meta : FileMetaData Key) (w : W) (fname : Bytes) (r : Status × FileMetaData Key × W)
      → table_file_name dbname meta.number ≡ some fname
      → build_table env ops dbname entries iter_status meta w ≡ some r
      → Outcome fname entries iter_status meta.number w r
  unfolding build_table
  build_table-Outcome dbname entries iter_status meta w fname r e h =
      build_entries-Outcome fname entries iter_status (record meta { file_size = 0 }) w r refl
        (rw e at h)

-- ===== src/Db/Obsolete/Frame.antt =====
-- The files that `DeleteObsoleteFiles` leaves alone, and why a database needs a file.
use level_db.Prelude.{
  ℕ, ◌≡◌, ◌≢◌, ◌≤◌, ◌⊎◌, ◌==◌, arith, refl, sym, ap, ◌∙◌, Bool, true, false, List, [], ◌∷◌, ◌++◌,
  Option, none, some, Bytes, codes, Bool-cases, inl, inr,
}
use mathlib.Core.List.{append_cancel_left}
use level_db.Status.{ok}
use level_db.Decimal.{NumberReader}
use level_db.FileName.{FileType, parse_file_name}
use level_db.Db.{DbImpl, Backend, contains}
use level_db.Db.Obsolete.{
  keep, is_table, visit_parsed, visit_file, visit_files, delete_obsolete_files,
}

module _ {W File Lock Logger Key Mem Compaction : Type 0}
    (be : Backend W File Lock Logger Key Mem Compaction) where
  -- The versions stand as they did.
  abbrev pub Unmoved : W → W → Type 0
  Unmoved w w' =
      (be.log_number w' ≡ be.log_number w)
      × (be.prev_log_number w' ≡ be.prev_log_number w)
      × (be.manifest_file_number w' ≡ be.manifest_file_number w)

  -- Deleting a file and dropping a table from the cache touch no other file and no version, and
  -- listing a directory touches nothing that is observed here.
  pub record IsFramed : Type 0 where
    pub delete_moves : (f : Bytes) (w : W) → Unmoved w (be.env.delete_file f w).1
    pub delete_other :
        (f g : Bytes) (w : W)
        → f ≢ g
        → be.env.file_exists g w ≡ true
        → be.env.file_exists g (be.env.delete_file f w).1 ≡ true
    pub evict_moves : (n : ℕ) (w : W) → Unmoved w (be.evict n w)
    pub evict_files :
        (n : ℕ) (g : Bytes) (w : W) → be.env.file_exists g (be.evict n w) ≡ be.env.file_exists g w
    pub list_moves : (d : Bytes) (w : W) → Unmoved w (be.env.get_children d w).2
    pub list_files :
        (d g : Bytes) (w : W)
        → be.env.file_exists g (be.env.get_children d w).2 ≡ be.env.file_exists g w

-- A number in a list of numbers.
abbrev pub IsIn : ℕ → List ℕ → Type 0
IsIn n xs = (ys : List ℕ) × (zs : List ℕ) × (xs ≡ ys ++ n ∷ zs)

contains_middle : (n : ℕ) (ys zs : List ℕ) → contains (ys ++ n ∷ zs) n ≡ true
unfolding contains
contains_middle n [] zs = ground arith
contains_middle n (y ∷ ys) zs = ground (arith, contains_middle n ys zs)

contains_left : (n : ℕ) (xs ys : List ℕ) → contains xs n ≡ true → contains (xs ++ ys) n ≡ true
unfolding contains
contains_left n [] ys h = absurd (cc)
contains_left n (x ∷ xs) ys h = elim (Bool-cases (x == n)) [
  | inl e ↦ rw e refl
  | inr e ↦ rw e (contains_left n xs ys (rw e at h))
]

contains_right : (n : ℕ) (xs ys : List ℕ) → contains ys n ≡ true → contains (xs ++ ys) n ≡ true
unfolding contains
contains_right n [] ys h = h
contains_right n (x ∷ xs) ys h = ground (arith, contains_right n xs ys h)

IsIn-contains : (n : ℕ) (xs : List ℕ) → IsIn n xs → contains xs n ≡ true
IsIn-contains n xs (ys, zs, e) = rw e (contains_middle n ys zs)

module _ {W File Lock Logger Key Mem Compaction : Type 0}
    (be : Backend W File Lock Logger Key Mem Compaction) where
  -- Why a database needs a file of a number and a type: CURRENT, the lock and the logs of messages
  -- always; a log from the first one that is not in tables yet, and the one before it; the manifest
  -- in use, and one with a larger number, which comes up; a table and a temporary file that is being
  -- written, or that a version has.
  pub data Needed (db : DbImpl W Key Mem) : ℕ → FileType → Type 0 where
    current : {n : ℕ} → Needed db n FileType.current_file
    lock : {n : ℕ} → Needed db n FileType.db_lock_file
    info_log : {n : ℕ} → Needed db n FileType.info_log_file
    new_log : {n : ℕ} → be.log_number db.world ≤ n → Needed db n FileType.log_file
    previous_log : Needed db (be.prev_log_number db.world) FileType.log_file
    manifest : {n : ℕ} → be.manifest_file_number db.world ≤ n → Needed db n FileType.descriptor_file
    pending_table : {n : ℕ} → IsIn n db.pending_outputs → Needed db n FileType.table_file
    live_table : {n : ℕ} → IsIn n (be.live_files db.world) → Needed db n FileType.table_file
    pending_temp : {n : ℕ} → IsIn n db.pending_outputs → Needed db n FileType.temp_file
    live_temp : {n : ℕ} → IsIn n (be.live_files db.world) → Needed db n FileType.temp_file

module _ {W File Lock Logger Key Mem Compaction : Type 0} (reader : NumberReader)
    (be : Backend W File Lock Logger Key Mem Compaction) where
  -- The switch of the loop spares the files that are needed.
  Needed-keep :
      (db : DbImpl W Key Mem) {n : ℕ} {t : FileType}
      → Needed be db n t
      → keep reader be (db.pending_outputs ++ be.live_files db.world) db.world n t ≡ true
  unfolding keep
  Needed-keep db current = refl
  Needed-keep db lock = refl
  Needed-keep db info_log = refl
  Needed-keep db (new_log h) = ground arith
  Needed-keep db previous_log = ground arith
  Needed-keep db (manifest h) = ground arith
  Needed-keep db (pending_table {n} h) =
      contains_left n db.pending_outputs (be.live_files db.world) (IsIn-contains n _ h)
  Needed-keep db (live_table {n} h) =
      contains_right n db.pending_outputs (be.live_files db.world) (IsIn-contains n _ h)
  Needed-keep db (pending_temp {n} h) =
      contains_left n db.pending_outputs (be.live_files db.world) (IsIn-contains n _ h)
  Needed-keep db (live_temp {n} h) =
      contains_right n db.pending_outputs (be.live_files db.world) (IsIn-contains n _ h)

  unfoldable pub survives_parsed : List ℕ → W → Option (ℕ × FileType) → Bool
  survives_parsed live w none = true
  survives_parsed live w (some (n, t)) = keep reader be live w n t

  -- `DeleteObsoleteFiles` has no reason to delete a file of this name.
  unfoldable pub survives : List ℕ → W → Bytes → Bool
  unfolding survives_parsed
  survives live w fname = survives_parsed live w (parse_file_name reader fname)

  keep-Unmoved :
      (live : List ℕ) (w w' : W) (n : ℕ) (t : FileType)
      → Unmoved be w w'
      → keep reader be live w' n t ≡ keep reader be live w n t
  unfolding keep
  keep-Unmoved live w w' n FileType.log_file (l, p, m) = rw (l, p) refl
  keep-Unmoved live w w' n FileType.descriptor_file (l, p, m) = rw m refl
  keep-Unmoved live w w' n FileType.table_file h = refl
  keep-Unmoved live w w' n FileType.temp_file h = refl
  keep-Unmoved live w w' n FileType.current_file h = refl
  keep-Unmoved live w w' n FileType.db_lock_file h = refl
  keep-Unmoved live w w' n FileType.info_log_file h = refl

  survives_parsed-Unmoved :
      (live : List ℕ) (w w' : W) (o : Option (ℕ × FileType))
      → Unmoved be w w'
      → survives_parsed live w' o ≡ survives_parsed live w o
  unfolding survives_parsed
  survives_parsed-Unmoved live w w' none h = refl
  survives_parsed-Unmoved live w w' (some (n, t)) h = keep-Unmoved live w w' n t h

  survives-Unmoved :
      (live : List ℕ) (w w' : W) (f : Bytes)
      → Unmoved be w w'
      → survives live w' f ≡ survives live w f
  unfolding survives
  survives-Unmoved live w w' f h = survives_parsed-Unmoved live w w' (parse_file_name reader f) h

module _ {W File Lock Logger Key Mem Compaction : Type 0} (reader : NumberReader)
    (be : Backend W File Lock Logger Key Mem Compaction) (framed : IsFramed be) where
  -- The path under which the loop reaches a name.
  abbrev pub path : Bytes → Bytes → Bytes
  path dbname f = dbname ++ codes "/" ++ f

  -- The file is there, and the rounds that come have no reason to delete it.
  abbrev Stays : Bytes → List ℕ → Bytes → W → Type 0
  Stays dbname live g w =
      (be.env.file_exists (path dbname g) w ≡ true) × (survives reader be live w g ≡ true)

  other_path :
      (live : List ℕ) (w : W) (dbname f g : Bytes)
      → survives reader be live w f ≡ false
      → survives reader be live w g ≡ true
      → path dbname f ≢ path dbname g
  other_path live w dbname f g deleted kept same =
      let names : f ≡ g = append_cancel_left (dbname ++ codes "/") f g same in
      cc (sym kept ∙ sym (ap (survives reader be live w) names) ∙ deleted)

  delete-Stays :
      (dbname : Bytes) (live : List ℕ) (f g : Bytes) (w : W)
      → survives reader be live w f ≡ false
      → Stays dbname live g w
      → Stays dbname live g (be.env.delete_file (path dbname f) w).1
  delete-Stays dbname live f g w deleted (there, kept) = (
    framed.delete_other (path dbname f) (path dbname g) w
        (other_path live w dbname f g deleted kept) there,
    survives-Unmoved reader be live w _ g (framed.delete_moves (path dbname f) w) ∙ kept,
  )

  evict-Stays :
      (dbname : Bytes) (live : List ℕ) (n : ℕ) (g : Bytes) (w : W)
      → Stays dbname live g w
      → Stays dbname live g (be.evict n w)
  evict-Stays dbname live n g w (there, kept) = (
    framed.evict_files n (path dbname g) w ∙ there,
    survives-Unmoved reader be live w (be.evict n w) g (framed.evict_moves n w) ∙ kept,
  )

  visit_parsed-Stays :
      (dbname : Bytes) (live : List ℕ) (f g : Bytes) (o : Option (ℕ × FileType)) (w : W)
      → parse_file_name reader f ≡ o
      → Stays dbname live g w
      → Stays dbname live g (visit_parsed reader be dbname live f o w)
  unfolding visit_parsed survives survives_parsed
  visit_parsed-Stays dbname live f g none w e h = h
  visit_parsed-Stays dbname live f g (some (n, t)) w e h =
      elim (Bool-cases (keep reader be live w n t)) [
        | inl k ↦ rw k h
        | inr k ↦
            let gone : survives reader be live w f ≡ false =
              ap (survives_parsed reader be live w) e ∙ k in
            elim (Bool-cases (is_table reader be t)) [
              | inl b ↦
                  rw (k, b)
                    (delete-Stays dbname live f g (be.evict n w)
                      (survives-Unmoved reader be live w (be.evict n w) f (framed.evict_moves n w)
                        ∙ gone)
                      (evict-Stays dbname live n g w h))
              | inr b ↦ rw (k, b) (delete-Stays dbname live f g w gone h)
            ]
      ]

  visit_files-Stays :
      (dbname : Bytes) (live : List ℕ) (names : List Bytes) (g : Bytes) (w : W)
      → Stays dbname live g w
      → Stays dbname live g (visit_files reader be dbname live names w)
  unfolding visit_files visit_file
  visit_files-Stays dbname live [] g w h = h
  visit_files-Stays dbname live (f ∷ rest) g w h =
      visit_files-Stays dbname live rest g (visit_file reader be dbname live f w)
        (visit_parsed-Stays dbname live f g (parse_file_name reader f) w refl h)

  pub survives_keeps :
      (db : DbImpl W Key Mem) (g : Bytes)
      → be.env.file_exists (path db.dbname g) db.world ≡ true
      → survives reader be (db.pending_outputs ++ be.live_files db.world) db.world g ≡ true
      → be.env.file_exists (path db.dbname g) (delete_obsolete_files reader be db).world ≡ true
  unfolding delete_obsolete_files
  survives_keeps db g there kept =
      let live = db.pending_outputs ++ be.live_files db.world in
      let (s, names, w) = be.env.get_children db.dbname db.world in
      elim (Bool-cases (ok db.bg_error)) [
        | inr e ↦ rw e there
        | inl e ↦
            rw e
              (visit_files-Stays db.dbname live names g w (
                framed.list_files db.dbname (path db.dbname g) db.world ∙ there,
                survives-Unmoved reader be live db.world w g (framed.list_moves db.dbname db.world)
                    ∙ kept,
              )).0
      ]

  spared-survives :
      (db : DbImpl W Key Mem) (g : Bytes)
      → (parse_file_name reader g ≡ none)
        ⊎ ((n : ℕ) × (t : FileType) × (parse_file_name reader g ≡ some (n, t)) × Needed be db n t)
      → survives reader be (db.pending_outputs ++ be.live_files db.world) db.world g ≡ true
  unfolding survives survives_parsed
  spared-survives db g (inl e) = rw e refl
  spared-survives db g (inr (n, t, e, needed)) = rw e (Needed-keep reader be db needed)

  -- As long as deleting one file touches neither another file nor the version set,
  -- `DeleteObsoleteFiles` never deletes a file in the directory of the database whose name is not
  -- the name of a database file, or that the database needs: CURRENT, the lock, a log of messages, a
  -- log with the log number of the version set or a larger one, the previous log, the manifest in
  -- use or one with a larger number, and a table or a temporary file whose number is among the
  -- pending outputs or the files of a version.
  pub delete_obsolete_files-keeps :
      (db : DbImpl W Key Mem) (g : Bytes)
      → be.env.file_exists (path db.dbname g) db.world ≡ true
      → (parse_file_name reader g ≡ none)
        ⊎ ((n : ℕ) × (t : FileType) × (parse_file_name reader g ≡ some (n, t)) × Needed be db n t)
      → be.env.file_exists (path db.dbname g) (delete_obsolete_files reader be db).world ≡ true
  delete_obsolete_files-keeps db g there spared =
      survives_keeps db g there (spared-survives db g spared)

-- ===== src/Db/Sample/Files.antt =====
-- `DeleteObsoleteFiles` at the sample backend: an old manifest goes, the manifest in use stays.
use level_db.Prelude.{
  ◌≡◌, ◌≢◌, refl, some, sym, ◌∙◌, true, List, [], ◌∷◌, Bytes, codes, Bool-cases, inl, inr, arith,
}
use level_db.Slice.{equal}
use level_db.Slice.Prefix.{equal_iff}
use level_db.Decimal.Reader.{run_reader}
use level_db.Db.{DbImpl}
use level_db.Db.Sample.{World, has, without, sample_backend, sample_db}
use level_db.Db.Obsolete.{delete_obsolete_files}
use level_db.FileName.{FileType, parse_file_name}
use level_db.FileName.Grammar.{Owned, parse_file_name-Owned}
use level_db.Db.Obsolete.Frame.{IsFramed, Needed, delete_obsolete_files-keeps}

has-without :
    (ns : List Bytes) (f g : Bytes) → f ≢ g → has ns g ≡ true → has (without ns f) g ≡ true
has-without [] f g d h = h
has-without (n ∷ ns) f g d h = elim (Bool-cases (equal n f)) [
  | inl e ↦ elim (Bool-cases (equal n g)) [
    | inl k ↦ absurd (d (sym ((equal_iff n f).0 e) ∙ (equal_iff n g).0 k))
    | inr k ↦ rw e (has-without ns f g d (rw k at h))
  ]
  | inr e ↦ elim (Bool-cases (equal n g)) [
    | inl k ↦ rw (e, k) refl
    | inr k ↦ rw (e, k) (has-without ns f g d (rw k at h))
  ]
]

pub sample-IsFramed : IsFramed sample_backend
sample-IsFramed = record {
  delete_moves = λ f w. (refl, refl, refl);
  delete_other = λ f g w d h. has-without w.names f g d h;
  evict_moves = λ n w. (refl, refl, refl);
  evict_files = λ n g w. refl;
  list_moves = λ d w. (refl, refl, refl);
  list_files = λ d g w. refl;
}

abbrev two_manifests : DbImpl World Bytes (List (Bytes × Bytes))
two_manifests = record sample_db {
  world = record sample_db.world {
    names = codes "/db/MANIFEST-000001" ∷ codes "/db/MANIFEST-000002" ∷ [];
  };
}

two_parsed :
    parse_file_name run_reader (codes "MANIFEST-000002") ≡ some (2, FileType.descriptor_file)
two_parsed =
    (parse_file_name-Owned run_reader (codes "MANIFEST-000002") 2 FileType.descriptor_file).1 (
      Owned.manifest {ds = codes "000002"} (
        (λ q. cc),
        (
          (omega arith, omega arith),
          (
            (omega arith, omega arith),
            (
              (omega arith, omega arith),
              (
                (omega arith, omega arith),
                ((omega arith, omega arith), ((omega arith, omega arith), tt)),
              ),
            ),
          ),
        ),
        refl,
        omega arith,
      ))

delete_obsolete_files-keeps_example :
    has
      (delete_obsolete_files run_reader sample_backend two_manifests).world.names
      (codes "/db/MANIFEST-000002")
    ≡ true
unfolding equal
delete_obsolete_files-keeps_example =
    delete_obsolete_files-keeps run_reader sample_backend sample-IsFramed two_manifests
      (codes "MANIFEST-000002") refl
      (inr (2, FileType.descriptor_file, two_parsed, Needed.manifest (omega arith)))

-- ===== src/FileName/Grammar.antt =====
-- The names that `ParseFileName` of db/filename.cpp accepts: those that the comment over it lists,
-- as long as their number fits 64 bits, and the lock and the temporary files, which it does not.
use level_db.Prelude.{
  ℕ, ◌<◌, ◌^◌, ◌≢◌, ◌⊎◌, All, ◌≡◌, ◌↔◌, refl, sym, ap, ◌∙◌, subst, true, false, [], ◌∷◌, ◌++◌,
  Option, none, some, Bytes, codes, arith, Bool-cases, inl, inr, append-nil,
}
use mathlib.Core.Path.{subst₂}
use level_db.Slice.{equal, starts_with, remove_prefix, size}
use level_db.Slice.Prefix.{equal_iff, starts_with_iff}
use level_db.Decimal.{value, IsNumeral, IsDigit, Ends, NumberReader}
use level_db.FileName.{FileType, manifest_type, suffix_type, parse_file_name}

-- The suffixes that the code knows.
pub data Suffix : Bytes → FileType → Type 0 where
  log : Suffix (codes ".log") FileType.log_file
  sst : Suffix (codes ".sst") FileType.table_file
  ldb : Suffix (codes ".ldb") FileType.table_file
  dbtmp : Suffix (codes ".dbtmp") FileType.temp_file

-- The names that the code knows, with their numbers and types.
pub data Owned : Bytes → ℕ → FileType → Type 0 where
  current : Owned (codes "CURRENT") 0 FileType.current_file
  lock : Owned (codes "LOCK") 0 FileType.db_lock_file
  info_log : Owned (codes "LOG") 0 FileType.info_log_file
  old_info_log : Owned (codes "LOG.old") 0 FileType.info_log_file
  manifest :
      {ds : Bytes} {n : ℕ}
      → IsNumeral ds n
      → Owned (codes "MANIFEST-" ++ ds) n FileType.descriptor_file
  numbered :
      {ds suffix : Bytes} {n : ℕ} {t : FileType}
      → IsNumeral ds n
      → Suffix suffix t
      → Owned (ds ++ suffix) n t

-- Digits that spell a number, of any length.
abbrev pub Spells : Bytes → ℕ → Type 0
Spells ds n = (ds ≢ []) × All IsDigit ds × (value 0 ds ≡ n)

-- The forms in the comment over `ParseFileName`.
pub data Listed : Bytes → ℕ → FileType → Type 0 where
  current : Listed (codes "CURRENT") 0 FileType.current_file
  info_log : Listed (codes "LOG") 0 FileType.info_log_file
  old_info_log : Listed (codes "LOG.old") 0 FileType.info_log_file
  manifest :
      {ds : Bytes} {n : ℕ}
      → Spells ds n
      → Listed (codes "MANIFEST-" ++ ds) n FileType.descriptor_file
  log_of : {ds : Bytes} {n : ℕ} → Spells ds n → Listed (ds ++ codes ".log") n FileType.log_file
  sst_of : {ds : Bytes} {n : ℕ} → Spells ds n → Listed (ds ++ codes ".sst") n FileType.table_file
  ldb_of : {ds : Bytes} {n : ℕ} → Spells ds n → Listed (ds ++ codes ".ldb") n FileType.table_file

-- The forms that are not in it.
pub data Unlisted : Bytes → ℕ → FileType → Type 0 where
  lock : Unlisted (codes "LOCK") 0 FileType.db_lock_file
  temp_of :
      {ds : Bytes} {n : ℕ} → Spells ds n → Unlisted (ds ++ codes ".dbtmp") n FileType.temp_file

numbered-Listed :
    {ds suffix : Bytes} {n : ℕ} {t : FileType}
    → Spells ds n
    → Suffix suffix t
    → Listed (ds ++ suffix) n t ⊎ Unlisted (ds ++ suffix) n t
numbered-Listed h log = inl (log_of h)
numbered-Listed h sst = inl (sst_of h)
numbered-Listed h ldb = inl (ldb_of h)
numbered-Listed h dbtmp = inr (temp_of h)

Owned-Listed :
    {s : Bytes} {n : ℕ} {t : FileType}
    → Owned s n t
    → (n < 2 ^ 64) × (Listed s n t ⊎ Unlisted s n t)
Owned-Listed Owned.current = (omega arith, inl Listed.current)
Owned-Listed Owned.lock = (omega arith, inr Unlisted.lock)
Owned-Listed Owned.info_log = (omega arith, inl Listed.info_log)
Owned-Listed Owned.old_info_log = (omega arith, inl Listed.old_info_log)
Owned-Listed (Owned.manifest (some_digits, all, spelt, h)) =
    (h, inl (Listed.manifest (some_digits, all, spelt)))
Owned-Listed (Owned.numbered (some_digits, all, spelt, h) known) =
    (h, numbered-Listed (some_digits, all, spelt) known)

Listed-Owned :
    {s : Bytes} {n : ℕ} {t : FileType} → n < 2 ^ 64 → Listed s n t ⊎ Unlisted s n t → Owned s n t
Listed-Owned h (inl Listed.current) = Owned.current
Listed-Owned h (inl Listed.info_log) = Owned.info_log
Listed-Owned h (inl Listed.old_info_log) = Owned.old_info_log
Listed-Owned h (inl (Listed.manifest (a, b, c))) = Owned.manifest (a, b, c, h)
Listed-Owned h (inl (Listed.log_of (a, b, c))) = Owned.numbered (a, b, c, h) Suffix.log
Listed-Owned h (inl (Listed.sst_of (a, b, c))) = Owned.numbered (a, b, c, h) Suffix.sst
Listed-Owned h (inl (Listed.ldb_of (a, b, c))) = Owned.numbered (a, b, c, h) Suffix.ldb
Listed-Owned h (inr Unlisted.lock) = Owned.lock
Listed-Owned h (inr (Unlisted.temp_of (a, b, c))) = Owned.numbered (a, b, c, h) Suffix.dbtmp

suffix_at :
    {rest suffix : Bytes} {t u : FileType} (num n : ℕ)
    → Suffix suffix u
    → equal rest suffix ≡ true
    → ◌≡◌ {A = Option (ℕ × FileType)} (some (num, u)) (some (n, t))
    → Suffix rest t × (num ≡ n)
suffix_at {rest} {suffix} {t} {u} num n known e h =
    (subst₂ Suffix (sym ((equal_iff rest suffix).0 e)) (cc) known, ground arith)

suffix_type-Suffix :
    (num n : ℕ) (rest : Bytes) (t : FileType)
    → suffix_type (some (num, rest)) ≡ some (n, t)
    → Suffix rest t × (num ≡ n)
unfolding suffix_type
suffix_type-Suffix num n rest t h = elim (Bool-cases (equal rest (codes ".log"))) [
  | inl e ↦ suffix_at num n log e (rw e at h)
  | inr e₁ ↦ elim (Bool-cases (equal rest (codes ".sst"))) [
    | inl e ↦ suffix_at num n sst e (rw (e₁, e) at h)
    | inr e₂ ↦ elim (Bool-cases (equal rest (codes ".ldb"))) [
      | inl e ↦ suffix_at num n ldb e (rw (e₁, e₂, e) at h)
      | inr e₃ ↦ elim (Bool-cases (equal rest (codes ".dbtmp"))) [
        | inl e ↦ suffix_at num n dbtmp e (rw (e₁, e₂, e₃, e) at h)
        | inr e₄ ↦ absurd (ground arith)
      ]
    ]
  ]
]

Suffix-suffix_type :
    {rest : Bytes} {t : FileType} (n : ℕ)
    → Suffix rest t
    → suffix_type (some (n, rest)) ≡ some (n, t)
unfolding suffix_type equal
Suffix-suffix_type n log = refl
Suffix-suffix_type n sst = refl
Suffix-suffix_type n ldb = refl
Suffix-suffix_type n dbtmp = refl

Suffix-Ends : {rest : Bytes} {t : FileType} → Suffix rest t → Ends rest
Suffix-Ends log = omega arith
Suffix-Ends sst = omega arith
Suffix-Ends ldb = omega arith
Suffix-Ends dbtmp = omega arith

-- A name that begins with a digit passes the tests for the fixed names.
fixed_names_fail :
    (c : ℕ) (s : Bytes)
    → IsDigit c
    → (equal (c ∷ s) (codes "CURRENT") ≡ false)
      × (equal (c ∷ s) (codes "LOCK") ≡ false)
      × (equal (c ∷ s) (codes "LOG") ≡ false)
      × (equal (c ∷ s) (codes "LOG.old") ≡ false)
      × (starts_with (c ∷ s) (codes "MANIFEST-") ≡ false)
unfolding equal starts_with
fixed_names_fail c s h = ground arith

module _ (reader : NumberReader) where
  open reader use {consume, complete, sound}

  parse_numbered :
      (s rest : Bytes) (n : ℕ) (t : FileType)
      → IsNumeral s n
      → Suffix rest t
      → parse_file_name reader (s ++ rest) ≡ some (n, t)
  unfolding parse_file_name
  parse_numbered [] rest n t h suffix = absurd (h.0 refl)
  parse_numbered (c ∷ s) rest n t h suffix = ground (
    arith,
    fixed_names_fail c (s ++ rest),
    complete (c ∷ s) rest n h (Suffix-Ends suffix),
    Suffix-suffix_type n suffix,
  )

  parse_descriptor :
      (s : Bytes) (n : ℕ)
      → IsNumeral s n
      → parse_file_name reader (codes "MANIFEST-" ++ s) ≡ some (n, FileType.descriptor_file)
  unfolding parse_file_name equal starts_with remove_prefix
  parse_descriptor s n h = ground (arith, complete s [] n h tt, append-nil s)

  -- The names of the grammar are accepted, each with its own number and type.
  parse_complete :
      {s : Bytes} {n : ℕ} {t : FileType} → Owned s n t → parse_file_name reader s ≡ some (n, t)
  unfolding parse_file_name equal
  parse_complete Owned.current = refl
  parse_complete Owned.lock = refl
  parse_complete Owned.info_log = refl
  parse_complete Owned.old_info_log = refl
  parse_complete (Owned.manifest {ds} {n} h) = parse_descriptor ds n h
  parse_complete (Owned.numbered {ds} {suffix} {n} {t} h known) =
      parse_numbered ds suffix n t h known

  owned_at :
      {s name : Bytes} {n m : ℕ} {t u : FileType}
      → Owned name m u
      → s ≡ name
      → ◌≡◌ {A = Option (ℕ × FileType)} (some (m, u)) (some (n, t))
      → Owned s n t
  owned_at {s} {name} {n} {m} {t} {u} known e h =
      subst (λ x. Owned x n t) (sym e) (subst₂ (Owned name) (ground arith) (cc) known)

  manifest_sound :
      (s rest : Bytes) (n : ℕ) (t : FileType) (r : Option (ℕ × Bytes))
      → s ≡ codes "MANIFEST-" ++ rest
      → consume rest ≡ r
      → manifest_type r ≡ some (n, t)
      → Owned s n t
  unfolding manifest_type
  manifest_sound s rest n t none e c h = absurd (cc)
  manifest_sound s rest n t (some (m, [])) e c h =
      let (ds, split, numeral) = sound rest [] m c in
      owned_at (Owned.manifest numeral)
        (e ∙ ap (λ x. codes "MANIFEST-" ++ x) (split ∙ append-nil ds)) h
  manifest_sound s rest n t (some (m, x ∷ more)) e c h = absurd (cc)

  numbered_sound :
      (s : Bytes) (n : ℕ) (t : FileType) (r : Option (ℕ × Bytes))
      → consume s ≡ r
      → suffix_type r ≡ some (n, t)
      → Owned s n t
  numbered_sound s n t none c h = absurd (unfold suffix_type in (cc))
  numbered_sound s n t (some (m, rest)) c h =
      let (ds, split, numeral) = sound s rest m c in
      let (suffix, same) = suffix_type-Suffix m n rest t h in
      subst (λ x. Owned x n t) (sym split)
        (subst (λ k. Owned (ds ++ rest) k t) same (Owned.numbered numeral suffix))

  parse_sound :
      (s : Bytes) (n : ℕ) (t : FileType) → parse_file_name reader s ≡ some (n, t) → Owned s n t
  unfolding parse_file_name size
  parse_sound s n t h = elim (Bool-cases (equal s (codes "CURRENT"))) [
    | inl e ↦ owned_at Owned.current ((equal_iff s _).0 e) (rw e at h)
    | inr e₁ ↦ elim (Bool-cases (equal s (codes "LOCK"))) [
      | inl e ↦ owned_at Owned.lock ((equal_iff s _).0 e) (rw (e₁, e) at h)
      | inr e₂ ↦ elim (Bool-cases (equal s (codes "LOG"))) [
        | inl e ↦ owned_at Owned.info_log ((equal_iff s _).0 e) (rw (e₁, e₂, e) at h)
        | inr e₃ ↦ elim (Bool-cases (equal s (codes "LOG.old"))) [
          | inl e ↦ owned_at Owned.old_info_log ((equal_iff s _).0 e) (rw (e₁, e₂, e₃, e) at h)
          | inr e₄ ↦ elim (Bool-cases (starts_with s (codes "MANIFEST-"))) [
            | inl e ↦
                let (rest, split, removed) = (starts_with_iff s (codes "MANIFEST-")).0 e in
                manifest_sound s rest n t (consume rest) split refl
                  (rw (e₁, e₂, e₃, e₄, e, removed) at h)
            | inr e ↦ numbered_sound s n t (consume s) refl (rw (e₁, e₂, e₃, e₄, e) at h)
          ]
        ]
      ]
    ]
  ]

  pub parse_file_name-Owned :
      (s : Bytes) (n : ℕ) (t : FileType) → (parse_file_name reader s ≡ some (n, t)) ↔ Owned s n t
  parse_file_name-Owned s n t = (parse_sound s n t, parse_complete)

  -- `ParseFileName` accepts a name with a number and a type exactly when the number is less than
  -- 2^64, and either the name has one of the forms that the comment over it lists, CURRENT, LOG,
  -- LOG.old, MANIFEST-[0-9]+ and [0-9]+.(log|sst|ldb), and the number and the type of that form,
  -- or it has a form that the comment does not list, LOCK or [0-9]+.dbtmp.
  pub parse_file_name_iff :
      (s : Bytes) (n : ℕ) (t : FileType)
      → (parse_file_name reader s ≡ some (n, t)) ↔ ((n < 2 ^ 64) × (Listed s n t ⊎ Unlisted s n t))
  parse_file_name_iff s n t =
      ((λ h. Owned-Listed (parse_sound s n t h)), (λ h. parse_complete (Listed-Owned h.0 h.1)))

-- ===== src/Posix/Files/Descriptors.antt =====
-- What `PosixRandomAccessFile::Read` does to the table of open descriptors.
use level_db.Prelude.{
  if-true, if-false, ℕ, ◌≡◌, ◌⊎◌, inl, inr, refl, sym, ap, ◌∙◌, Bool, true, false, Option, none,
  some, Bytes, ◌==◌, ==_iff, if◌then◌else◌, Bool-cases, arith,
}
use level_db.Status.{Status, ok}
use level_db.Posix.{System}
use level_db.Posix.Files.{
  RandomAccessFile, read_result, read_opened, descriptor_of, random_access_read,
}

-- What the calls that a read makes promise about descriptors.
pub record Descriptors {W Stream Dir : Type 0} (sys : System W Stream Dir) : Type 0 where
  pub is_open : ℕ → W → Bool
  pub close_lem :
      (fd other : ℕ) (w : W)
      → is_open other (sys.close fd w) ≡ (if other == fd then false else is_open other w)
  pub open_new :
      (f : Bytes) (fd : ℕ) (w : W)
      → (sys.open_file f w).0 ≡ some fd
      → (is_open fd w ≡ false) × (is_open fd (sys.open_file f w).1 ≡ true)
  pub open_others :
      (f : Bytes) (fd other : ℕ) (w : W)
      → (sys.open_file f w).0 ≡ some fd
      → (other == fd) ≡ false
      → is_open other (sys.open_file f w).1 ≡ is_open other w
  pub open_none :
      (f : Bytes) (other : ℕ) (w : W)
      → (sys.open_file f w).0 ≡ none
      → is_open other (sys.open_file f w).1 ≡ is_open other w
  pub pread_keeps :
      (fd n offset other : ℕ) (w : W) → is_open other (sys.pread fd n offset w).1 ≡ is_open other w
  pub pread_closed :
      (fd n offset : ℕ) (w : W) → is_open fd w ≡ false → (sys.pread fd n offset w).0 ≡ none

module _ {W Stream Dir : Type 0} (sys : System W Stream Dir) (table : Descriptors sys) where
  open table use {is_open, close_lem, open_new, open_others, open_none, pread_keeps, pread_closed}

  fails :
      (f : RandomAccessFile) (fd : ℕ) (r : Option Bytes × W)
      → r.0 ≡ none
      → ok (read_result sys f fd r).0 ≡ false
  unfolding read_result
  fails f fd (none, w) h = refl
  fails f fd (some bytes, w) h = absurd (cc)

  closes :
      (f : RandomAccessFile) (fd : ℕ) (r : Option Bytes × W)
      → ok (read_result sys f fd r).0 ≡ true
      → is_open fd (read_result sys f fd r).2 ≡ false
  unfolding read_result
  closes f fd (none, w) h = absurd (cc)
  closes f fd (some bytes, w) h = ground (arith, close_lem fd fd w)

  -- If a file has a descriptor of its own, a read with success closes it: every read that follows
  -- fails.
  random_access_read_twice :
      (filename : Bytes) (fd offset n offset' n' : ℕ) (w : W)
      → ok (random_access_read sys (record { filename = filename; fd = some fd }) offset n w).0
        ≡ true
      → ok
          (random_access_read sys
            (record { filename = filename; fd = some fd })
            offset'
            n'
            (random_access_read sys (record { filename = filename; fd = some fd }) offset n w).2).0
        ≡ false
  unfolding random_access_read read_opened descriptor_of
  random_access_read_twice filename fd offset n offset' n' w h =
      let f : RandomAccessFile = record { filename = filename; fd = some fd } in
      let w' = (read_result sys f fd (sys.pread fd n offset w)).2 in
      fails f fd (sys.pread fd n' offset' w')
        (pread_closed fd n' offset' w' (closes f fd (sys.pread fd n offset w) h))

  -- The descriptors that are open are the same.
  abbrev pub Same : W → W → Type 0
  Same w w' = (other : ℕ) → is_open other w' ≡ is_open other w

  -- A read of a file without a descriptor of its own.
  abbrev pub read_temporary : Bytes → ℕ → ℕ → W → Status × Bytes × W
  read_temporary filename offset n w =
      random_access_read sys (record { filename = filename; fd = none }) offset n w

  -- How it ends, with its status and the world behind it.
  abbrev pub NotOpened : Bytes → W → Status × Bytes × W → Type 0
  NotOpened filename w r = ((sys.open_file filename w).0 ≡ none) × (ok r.0 ≡ false) × Same w r.2

  abbrev pub BytesRead : Bytes → ℕ → ℕ → W → Status × Bytes × W → Type 0
  BytesRead filename offset n w r =
      (fd : ℕ) × ((sys.open_file filename w).0 ≡ some fd)
      × ((sys.pread fd n offset (sys.open_file filename w).1).0 ≡ some r.1)
      × (ok r.0 ≡ true)
      × Same w r.2

  abbrev pub Leaked : Bytes → ℕ → ℕ → W → Status × Bytes × W → Type 0
  Leaked filename offset n w r =
      (fd : ℕ) × ((sys.open_file filename w).0 ≡ some fd)
      × ((sys.pread fd n offset (sys.open_file filename w).1).0 ≡ none)
      × (ok r.0 ≡ false)
      × (is_open fd w ≡ false)
      × (is_open fd r.2 ≡ true)

  settled :
      (fd : ℕ) (w w₁ w₂ : W)
      → is_open fd w ≡ false
      → ((other : ℕ) → (other == fd) ≡ false → is_open other w₁ ≡ is_open other w)
      → ((other : ℕ) → is_open other w₂ ≡ is_open other w₁)
      → Same w (sys.close fd w₂)
  settled fd w w₁ w₂ was others kept other = elim (Bool-cases (other == fd)) [
    | inl e ↦
        close_lem fd other w₂
        ∙ if-true _ _ _ e
        ∙ sym (ap (λ i. is_open i w) ((==_iff other fd).0 e) ∙ was)
    | inr e ↦ close_lem fd other w₂ ∙ if-false _ _ _ e ∙ kept other ∙ others other e
  ]

  result_case :
      (filename : Bytes) (offset n fd : ℕ) (w : W) (r : Option Bytes × W)
      → (sys.open_file filename w).0 ≡ some fd
      → sys.pread fd n offset (sys.open_file filename w).1 ≡ r
      → ((other : ℕ) → is_open other r.1 ≡ is_open other (sys.open_file filename w).1)
      → BytesRead filename offset n w
          (read_result sys (record { filename = filename; fd = none }) fd r)
        ⊎ Leaked filename offset n w
            (read_result sys (record { filename = filename; fd = none }) fd r)
  unfolding read_result
  result_case filename offset n fd w (none, w₂) e p kept =
      let (was, now) = open_new filename fd w e in
      inr (fd, e, ap (λ t. t.0) p, refl, was, kept fd ∙ now)
  result_case filename offset n fd w (some bytes, w₂) e p kept =
      let (was, now) = open_new filename fd w e in
      inl (
        fd,
        e,
        ap (λ t. t.0) p,
        refl,
        settled fd w (sys.open_file filename w).1 w₂ was
            (λ other d. open_others filename fd other w e d) kept,
      )

  opened_case :
      (filename : Bytes) (offset n : ℕ) (w : W) (r : Option ℕ × W)
      → sys.open_file filename w ≡ r
      → NotOpened filename w
          (read_opened sys (record { filename = filename; fd = none }) offset n r)
        ⊎ (BytesRead filename offset n w
              (read_opened sys (record { filename = filename; fd = none }) offset n r)
            ⊎ Leaked filename offset n w
                (read_opened sys (record { filename = filename; fd = none }) offset n r))
  unfolding read_opened
  opened_case filename offset n w (none, w₁) e = inl (
    ap (λ t. t.0) e,
    refl,
    λ other. ap (λ t. is_open other t.1) (sym e) ∙ open_none filename other w (ap (λ t. t.0) e),
  )
  opened_case filename offset n w (some fd, w₁) e = inr (
      result_case filename offset n fd w (sys.pread fd n offset w₁) (ap (λ t. t.0) e)
        (ap (λ t. sys.pread fd n offset t.1) e)
        (λ other. pread_keeps fd n offset other w₁ ∙ ap (λ t. is_open other t.1) (sym e)))

  -- A read of a file without a descriptor of its own ends in one of three ways. The file cannot be
  -- opened: the read fails, and the open descriptors are the same. Or it is opened and `pread`
  -- answers bytes: the read succeeds with these bytes, and the open descriptors are the same. Or it
  -- is opened and `pread` fails: the read fails, and the descriptor that was opened for it, which
  -- was not open before, stays open.
  pub random_access_read_temporary :
      (filename : Bytes) (offset n : ℕ) (w : W)
      → NotOpened filename w (read_temporary filename offset n w)
        ⊎ (BytesRead filename offset n w (read_temporary filename offset n w)
            ⊎ Leaked filename offset n w (read_temporary filename offset n w))
  unfolding random_access_read descriptor_of
  random_access_read_temporary filename offset n w =
      opened_case filename offset n w (sys.open_file filename w) refl

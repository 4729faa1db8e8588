-- ===== src/Db/Startup/Logs.antt =====
-- The files that `Recover` finds: which are missing, and which logs it replays.
use level_db.Prelude.{
  ℕ, ◌+◌, ◌≤◌, ◌≡◌, refl, ◌∙◌, Bool, false, ◌&&◌, ◌||◌, not, List, [], ◌∷◌, ◌++◌, Option, none,
  some, Bytes, leb, ◌==◌, if◌then◌else◌, All, Bool-cases, inl, inr, arith,
}
use level_db.Decimal.{NumberReader}
use level_db.Coding.{Coding}
use level_db.FileName.{FileType, parse_file_name}
use level_db.Db.{Backend, contains, erase}
use level_db.Db.Startup.{insert_sorted, sort, is_log, find_step, find_logs}

abbrev pub count : ℕ → List ℕ → ℕ
count n [] = 0
count n (x ∷ xs) = (if x == n then 1 else 0) + count n xs

abbrev pub IsAscending : List ℕ → Type 0
IsAscending [] = Unit
IsAscending (x ∷ xs) = All (λ y. x ≤ y) xs × IsAscending xs

count-append : (n : ℕ) (xs ys : List ℕ) → count n (xs ++ ys) ≡ count n xs + count n ys
count-append n [] ys = omega arith
count-append n (x ∷ xs) ys = omega (arith, count-append n xs ys)

count-insert_sorted :
    (n x : ℕ) (xs : List ℕ) → count n (insert_sorted x xs) ≡ (if x == n then 1 else 0) + count n xs
unfolding insert_sorted
count-insert_sorted n x [] = refl
count-insert_sorted n x (y ∷ ys) = elim (Bool-cases (leb x y)) [
  | inl e ↦ rw e refl
  | inr e ↦ rw e (omega (arith, count-insert_sorted n x ys))
]

count-sort : (n : ℕ) (xs : List ℕ) → count n (sort xs) ≡ count n xs
unfolding sort
count-sort n [] = refl
count-sort n (x ∷ xs) = omega (arith, count-insert_sorted n x (sort xs), count-sort n xs)

All-weaken : (x y : ℕ) (zs : List ℕ) → x ≤ y → All (λ z. y ≤ z) zs → All (λ z. x ≤ z) zs
All-weaken x y [] h all = tt
All-weaken x y (z ∷ zs) h (k, all) = (omega arith, All-weaken x y zs h all)

All-insert_sorted :
    (a x : ℕ) (xs : List ℕ) → a ≤ x → All (λ y. a ≤ y) xs → All (λ y. a ≤ y) (insert_sorted x xs)
unfolding insert_sorted
All-insert_sorted a x [] h all = (h, tt)
All-insert_sorted a x (y ∷ ys) h (k, all) = elim (Bool-cases (leb x y)) [
  | inl e ↦ rw e (h, (k, all))
  | inr e ↦ rw e (k, All-insert_sorted a x ys h all)
]

insert_sorted-IsAscending :
    (x : ℕ) (xs : List ℕ) → IsAscending xs → IsAscending (insert_sorted x xs)
unfolding insert_sorted
insert_sorted-IsAscending x [] h = (tt, tt)
insert_sorted-IsAscending x (y ∷ ys) (all, h) = elim (Bool-cases (leb x y)) [
  | inl e ↦ let le : x ≤ y = ground arith in rw e ((le, All-weaken x y ys le all), (all, h))
  | inr e ↦ rw e (All-insert_sorted y x ys (ground arith) all, insert_sorted-IsAscending x ys h)
]

sort-IsAscending : (xs : List ℕ) → IsAscending (sort xs)
unfolding sort
sort-IsAscending [] = tt
sort-IsAscending (x ∷ xs) = insert_sorted-IsAscending x (sort xs) (sort-IsAscending xs)

pub contains-erase :
    (n k : ℕ) (xs : List ℕ) → contains (erase k xs) n ≡ contains xs n && not (k == n)
unfolding contains erase
contains-erase n k [] = refl
contains-erase n k (x ∷ xs) = elim (Bool-cases (x == k)) [
  | inl e ↦ rw e (ground (arith, contains-erase n k xs))
  | inr e ↦ rw e (ground (arith, contains-erase n k xs))
]

module _ {W File Lock Logger Key Mem Compaction : Type 0} (reader : NumberReader) (coding : Coding)
    (be : Backend W File Lock Logger Key Mem Compaction) where
  -- What a parsed name says: it is a log with the number, or a file with the number.
  abbrev pub log_with : ℕ → Option (ℕ × FileType) → ℕ
  log_with n none = 0
  log_with n (some (m, FileType.log_file)) = if m == n then 1 else 0
  log_with n (some (m, _)) = 0

  abbrev pub file_with : ℕ → Option (ℕ × FileType) → Bool
  file_with n none = false
  file_with n (some (m, t)) = m == n

  -- How many of the names are those of logs with this number, and whether one has the number.
  abbrev pub logs_named : ℕ → List Bytes → ℕ
  logs_named n [] = 0
  logs_named n (f ∷ fs) = log_with n (parse_file_name reader f) + logs_named n fs

  abbrev pub is_named : ℕ → List Bytes → Bool
  is_named n [] = false
  is_named n (f ∷ fs) = file_with n (parse_file_name reader f) || is_named n fs

  -- The log may hold what the tables do not.
  abbrev pub is_needed : ℕ → ℕ → ℕ → Bool
  is_needed min_log prev_log n = leb min_log n || (n == prev_log)

  count-find_step :
      (min_log prev_log n : ℕ) (o : Option (ℕ × FileType)) (expected logs : List ℕ)
      → count n (find_step reader coding be min_log prev_log o (expected, logs)).1
        ≡ count n logs + (if is_needed min_log prev_log n then log_with n o else 0)
  unfolding find_step is_log
  count-find_step min_log prev_log n none expected logs = ground arith
  count-find_step min_log prev_log n (some (m, FileType.log_file)) expected logs =
      ground (arith, count-append n logs (m ∷ []))
  count-find_step min_log prev_log n (some (m, _)) expected logs = ground arith

  contains-find_step :
      (min_log prev_log n : ℕ) (o : Option (ℕ × FileType)) (expected logs : List ℕ)
      → contains (find_step reader coding be min_log prev_log o (expected, logs)).0 n
        ≡ contains expected n && not (file_with n o)
  unfolding find_step
  contains-find_step min_log prev_log n none expected logs = ground arith
  contains-find_step min_log prev_log n (some (m, t)) expected logs = contains-erase n m expected

  count-find_logs :
      (min_log prev_log n : ℕ) (names : List Bytes) (found : List ℕ × List ℕ)
      → count n (find_logs reader coding be min_log prev_log names found).1
        ≡ count n found.1 + (if is_needed min_log prev_log n then logs_named n names else 0)
  unfolding find_logs
  count-find_logs min_log prev_log n [] found = ground arith
  count-find_logs min_log prev_log n (f ∷ fs) (expected, logs) =
      let o = parse_file_name reader f in
      ground (
        arith,
        count-find_logs min_log prev_log n fs
            (find_step reader coding be min_log prev_log o (expected, logs)),
        count-find_step min_log prev_log n o expected logs,
      )

  contains-find_logs :
      (min_log prev_log n : ℕ) (names : List Bytes) (found : List ℕ × List ℕ)
      → contains (find_logs reader coding be min_log prev_log names found).0 n
        ≡ contains found.0 n && not (is_named n names)
  unfolding find_logs
  contains-find_logs min_log prev_log n [] found = ground arith
  contains-find_logs min_log prev_log n (f ∷ fs) (expected, logs) =
      let o = parse_file_name reader f in
      ground (
        arith,
        contains-find_logs min_log prev_log n fs
            (find_step reader coding be min_log prev_log o (expected, logs)),
        contains-find_step min_log prev_log n o expected logs,
      )

  -- The numbers of the logs that are found ascend when they are sorted. A number is found once for
  -- each name in the directory of a log with that number if it is at least that of the current log
  -- or is that of the previous one, and not at all elsewhere; a live file is missing exactly if no
  -- name has its number.
  pub find_logs_lem :
      (min_log prev_log n : ℕ) (names : List Bytes) (live : List ℕ)
      → IsAscending (sort (find_logs reader coding be min_log prev_log names (live, [])).1)
        × (count n (sort (find_logs reader coding be min_log prev_log names (live, [])).1)
            ≡ (if is_needed min_log prev_log n then logs_named n names else 0))
        × (contains (find_logs reader coding be min_log prev_log names (live, [])).0 n
            ≡ contains live n && not (is_named n names))
  find_logs_lem min_log prev_log n names live =
      let found = find_logs reader coding be min_log prev_log names (live, []) in
      (
        sort-IsAscending found.1,
        count-sort n found.1 ∙ count-find_logs min_log prev_log n names (live, []) ∙ omega arith,
        contains-find_logs min_log prev_log n names (live, []),
      )

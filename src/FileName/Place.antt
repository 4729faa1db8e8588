-- ===== src/FileName/Place.antt =====
-- Where the files stand: the numbered names miss the slash behind the directory.
use level_db.Prelude.{
  sym, Bool-cases, inl, inr, if-true, if-false, ℕ, ◌^◌, ◌<◌, ◌≤◌, ◌≡◌, ◌≢◌, refl, ap, ◌∙◌, false,
  All, [], ◌∷◌, ◌++◌, Option, some, Bytes, codes, length, arith, append_assoc, lt→ltb,
}
use level_db.Decimal.{print_padded, IsDigit, IsNumeral}
use level_db.Decimal.Laws.{print_padded-IsNumeral}
use level_db.Posix.Files.{has_slash, split_last}
use level_db.FileName.{
  make_file_name, log_file_name, table_file_name, sst_table_file_name, temp_file_name,
}
use level_db.FileName.RoundTrip.{make_file_name_lem}

append_cancel : (xs : Bytes) {ys zs : Bytes} → xs ++ ys ≡ xs ++ zs → ys ≡ zs
append_cancel [] h = h
append_cancel (x ∷ xs) h = append_cancel xs (cc)

-- A name with a base that is glued to the text `dbname`: the base is a numeral of the number and
-- the suffix, without a slash; the part before the last slash is that of `dbname`, and the name is
-- none of those that go on behind `dbname/`.
abbrev pub Beside : Bytes → ℕ → Bytes → Option Bytes → Type 0
Beside dbname n suffix o =
    (ds : Bytes) × IsNumeral ds n
    × (o ≡ some (dbname ++ (ds ++ suffix)))
    × (has_slash (ds ++ suffix) ≡ false)
    × ((split_last (dbname ++ (ds ++ suffix))).0 ≡ (split_last dbname).0)
    × ((rest : Bytes) → dbname ++ (ds ++ suffix) ≢ dbname ++ (codes "/" ++ rest))

has_slash-append :
    (ds suffix : Bytes)
    → All IsDigit ds
    → has_slash suffix ≡ false
    → has_slash (ds ++ suffix) ≡ false
has_slash-append [] suffix all h = h
has_slash-append (d ∷ ds) suffix (digit, all) h =
    ground (arith, has_slash-append ds suffix all h, digit)

has_slash-append_plain :
    (s base : Bytes) → has_slash base ≡ false → has_slash (s ++ base) ≡ has_slash s
has_slash-append_plain [] base h = h
has_slash-append_plain (c ∷ s) base h = ground (arith, has_slash-append_plain s base h)

split_last-append :
    (s base : Bytes) → has_slash base ≡ false → (split_last (s ++ base)).0 ≡ (split_last s).0
unfolding split_last
split_last-append [] [] h = refl
split_last-append [] (c ∷ base) h =
    ap (λ (p : Bytes × Bytes). p.0) (if-false (has_slash base) _ _ (ground (arith, h)))
split_last-append (c ∷ s) base h = elim (Bool-cases (has_slash s)) [
  | inl e ↦
      ap (λ (p : Bytes × Bytes). p.0)
        (if-true (has_slash (s ++ base)) _ _ (has_slash-append_plain s base h ∙ e))
      ∙ ap (λ (d : Bytes). c ∷ d) (split_last-append s base h)
      ∙ sym (ap (λ (p : Bytes × Bytes). p.0) (if-true (has_slash s) _ _ e))
  | inr e ↦
      ap (λ (p : Bytes × Bytes). p.0)
        (if-false (has_slash (s ++ base)) _ _ (has_slash-append_plain s base h ∙ e))
      ∙ sym (ap (λ (p : Bytes × Bytes). p.0) (if-false (has_slash s) _ _ e))
]

numeral_no_slash : (ds rest more : Bytes) (n : ℕ) → IsNumeral ds n → ds ++ rest ≢ codes "/" ++ more
numeral_no_slash [] rest more n h e = h.0 refl
numeral_no_slash (d ∷ ds) rest more n h e = absurd (ground arith)

make_file_name-Beside :
    (dbname : Bytes) (n : ℕ) (suffix : Bytes)
    → n < 2 ^ 64
    → length suffix ≤ 20
    → has_slash (codes "." ++ suffix) ≡ false
    → Beside dbname n (codes "." ++ suffix) (some (make_file_name dbname n suffix))
make_file_name-Beside dbname n suffix h short plain =
    let numeral = print_padded-IsNumeral n h in
    let no_slash = has_slash-append (print_padded n) (codes "." ++ suffix) numeral.1 plain in
    (
      print_padded n,
      numeral,
      ap some (
          make_file_name_lem dbname n suffix short
          ∙ ap (λ x. dbname ++ x) (append_assoc (print_padded n) (codes ".") suffix)),
      no_slash,
      split_last-append dbname (print_padded n ++ (codes "." ++ suffix)) no_slash,
      λ rest e.
          numeral_no_slash (print_padded n) (codes "." ++ suffix) rest n numeral
            (append_cancel dbname e),
    )

-- For every positive number of 64 bits the names of log, tables and temporary files exist. Each is
-- the text `dbname` with a base glued to it, a numeral of the number and the suffix, which has no
-- slash: its part before the last slash is that of `dbname` itself, and it does not go on behind
-- `dbname/`.
pub file_names_outside :
    (dbname : Bytes) (n : ℕ)
    → 0 < n
    → n < 2 ^ 64
    → Beside dbname n (codes ".log") (log_file_name dbname n)
      × Beside dbname n (codes ".ldb") (table_file_name dbname n)
      × Beside dbname n (codes ".sst") (sst_table_file_name dbname n)
      × Beside dbname n (codes ".dbtmp") (temp_file_name dbname n)
unfolding log_file_name table_file_name sst_table_file_name temp_file_name
file_names_outside dbname n pos h = rw (lt→ltb 0 n pos) (
  make_file_name-Beside dbname n (codes "log") h (omega arith) refl,
  make_file_name-Beside dbname n (codes "ldb") h (omega arith) refl,
  make_file_name-Beside dbname n (codes "sst") h (omega arith) refl,
  make_file_name-Beside dbname n (codes "dbtmp") h (omega arith) refl,
)

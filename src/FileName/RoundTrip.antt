-- ===== src/FileName/RoundTrip.antt =====
-- The printed file names, parsed.
use level_db.Prelude.{
  ℕ, ◌^◌, ◌<◌, ◌≤◌, ◌≡◌, ◌∙◌, ap, ◌++◌, Option, some, Bytes, codes, length, arith, length-append,
  lt→ltb, append_assoc,
}
use level_db.Decimal.{print_padded, NumberReader}
use level_db.Decimal.Laws.{print_padded-IsNumeral, length-print_padded, in_buffer_fits}
use level_db.FileName.{
  FileType, make_file_name, log_file_name, table_file_name, sst_table_file_name, temp_file_name,
  descriptor_file_name, parse_file_name,
}
use level_db.FileName.Grammar.{Suffix, Owned, parse_file_name-Owned}

-- Every numbered name is the given prefix followed by digits and a suffix; the buffer cuts nothing.
pub make_file_name_lem :
    (name : Bytes) (number : ℕ) (suffix : Bytes)
    → length suffix ≤ 20
    → make_file_name name number suffix ≡ name ++ (print_padded number ++ codes "." ++ suffix)
unfolding make_file_name
make_file_name_lem name number suffix h =
    ap (λ t. name ++ t)
      (in_buffer_fits 100 (print_padded number ++ codes "." ++ suffix) (
        omega (
          arith,
          length-print_padded number,
          length-append (print_padded number ++ codes ".") suffix,
          length-append (print_padded number) (codes "."),
        )))

-- `o` is a name in the directory prefix `front` whose last part is parsed to `n` and `t`.
abbrev pub ParsedAs : NumberReader → Bytes → Option Bytes → ℕ → FileType → Type 0
ParsedAs reader front o n t =
    (f : Bytes) × (o ≡ some (front ++ f)) × (parse_file_name reader f ≡ some (n, t))

numbered_in :
    (reader : NumberReader) (name : Bytes) (n : ℕ) (suffix : Bytes) (t : FileType)
    → n < 2 ^ 64
    → length suffix ≤ 20
    → Suffix (codes "." ++ suffix) t
    → ParsedAs reader name (some (make_file_name name n suffix)) n t
numbered_in reader name n suffix t h short known = (
  print_padded n ++ (codes "." ++ suffix),
  ap some (
      make_file_name_lem name n suffix short
      ∙ ap (λ x. name ++ x) (append_assoc (print_padded n) (codes ".") suffix)),
  (parse_file_name-Owned reader _ n t).1 (Owned.numbered (print_padded-IsNumeral n h) known),
)

descriptor_in :
    (reader : NumberReader) (dbname : Bytes) (n : ℕ)
    → 0 < n
    → n < 2 ^ 64
    → ParsedAs reader
        (dbname ++ codes "/")
        (descriptor_file_name dbname n)
        n
        FileType.descriptor_file
unfolding descriptor_file_name
descriptor_in reader dbname n pos h = (
  codes "MANIFEST-" ++ print_padded n,
  ground (
    arith,
    in_buffer_fits 100 (codes "/MANIFEST-" ++ print_padded n)
        (omega (arith, length-print_padded n, length-append (codes "/MANIFEST-") (print_padded n))),
    append_assoc dbname (codes "/") (codes "MANIFEST-" ++ print_padded n),
  ),
  (parse_file_name-Owned reader _ n FileType.descriptor_file).1
      (Owned.manifest (print_padded-IsNumeral n h)),
)

-- For a positive number of 64 bits, the name of each numbered file is its directory prefix
-- followed by a part that `ParseFileName` reads back as the same number with the type of the file.
-- The prefix of a manifest is the database name and a slash, that of the other files the database
-- name.
pub parse-file_names :
    (reader : NumberReader) (dbname : Bytes) (n : ℕ)
    → 0 < n
    → n < 2 ^ 64
    → ParsedAs reader dbname (log_file_name dbname n) n FileType.log_file
      × ParsedAs reader dbname (table_file_name dbname n) n FileType.table_file
      × ParsedAs reader dbname (sst_table_file_name dbname n) n FileType.table_file
      × ParsedAs reader dbname (temp_file_name dbname n) n FileType.temp_file
      × ParsedAs reader
          (dbname ++ codes "/")
          (descriptor_file_name dbname n)
          n
          FileType.descriptor_file
unfolding log_file_name table_file_name sst_table_file_name temp_file_name
parse-file_names reader dbname n pos h = rw (lt→ltb 0 n pos) (
  numbered_in reader dbname n (codes "log") FileType.log_file h (omega arith) Suffix.log,
  numbered_in reader dbname n (codes "ldb") FileType.table_file h (omega arith) Suffix.ldb,
  numbered_in reader dbname n (codes "sst") FileType.table_file h (omega arith) Suffix.sst,
  numbered_in reader dbname n (codes "dbtmp") FileType.temp_file h (omega arith) Suffix.dbtmp,
  descriptor_in reader dbname n pos h,
)

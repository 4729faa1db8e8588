-- ===== src/FileName/Tests.antt =====
-- The theorems on file names at a concrete database.
use level_db.Prelude.{◌<◌, ◌^◌, ◌⊎◌, ◌≡◌, refl, none, some, codes, arith}
use level_db.Slice.{equal}
use level_db.Decimal.{print_padded, in_buffer}
use level_db.Decimal.Reader.{run_reader}
use level_db.FileName.{
  table_file_name, sst_table_file_name, temp_file_name, FileType, log_file_name,
  descriptor_file_name, lock_file_name, info_log_file_name, old_info_log_file_name, parse_file_name,
}
use level_db.FileName.Grammar.{Listed, Unlisted, parse_file_name_iff}
use level_db.FileName.RoundTrip.{ParsedAs, parse-file_names}
use level_db.FileName.Place.{Beside, file_names_outside}

log_name : log_file_name (codes "db") 5 ≡ some (codes "db000005.log")
unfolding log_file_name print_padded in_buffer
log_name = refl

manifest_name : descriptor_file_name (codes "db") 5 ≡ some (codes "db/MANIFEST-000005")
unfolding descriptor_file_name print_padded in_buffer
manifest_name = refl

no_log_zero : log_file_name (codes "db") 0 ≡ none
unfolding log_file_name
no_log_zero = refl

fixed_names :
    (lock_file_name (codes "db") ≡ codes "db/LOCK")
    × (info_log_file_name (codes "db") ≡ codes "db/LOG")
    × (old_info_log_file_name (codes "db") ≡ codes "db/LOG.old")
unfolding lock_file_name info_log_file_name old_info_log_file_name
fixed_names = (refl, refl, refl)

parse_file_name_iff_example :
    (0 < 2 ^ 64)
    × (Listed (codes "LOG.old") 0 FileType.info_log_file
        ⊎ Unlisted (codes "LOG.old") 0 FileType.info_log_file)
unfolding parse_file_name equal
parse_file_name_iff_example =
    (parse_file_name_iff run_reader (codes "LOG.old") 0 FileType.info_log_file).0 refl

parse-file_names_example :
    ParsedAs run_reader
      (codes "db")
      (log_file_name (codes "db") 18446744073709551615)
      18446744073709551615
      FileType.log_file
parse-file_names_example =
    (parse-file_names run_reader (codes "db") 18446744073709551615 (omega arith) (omega arith)).0

file_names_outside_example :
    Beside (codes "db") 7 (codes ".log") (log_file_name (codes "db") 7)
    × Beside (codes "db") 7 (codes ".ldb") (table_file_name (codes "db") 7)
    × Beside (codes "db") 7 (codes ".sst") (sst_table_file_name (codes "db") 7)
    × Beside (codes "db") 7 (codes ".dbtmp") (temp_file_name (codes "db") 7)
file_names_outside_example = file_names_outside (codes "db") 7 (omega arith) (omega arith)

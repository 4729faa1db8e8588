-- ===== src/FileName.antt =====
-- db/filename.cpp and db/filename.h: the names of the files of a database, and `ParseFileName`.
-- A name is its bytes. A function whose `assert` fails has no result.
pub mod Grammar
pub mod RoundTrip
pub mod Place
pub mod Tests
use level_db.Prelude.{
  ℕ, ◌<◌, ◌≡◌, Bool, true, false, ◌||◌, List, [], ◌∷◌, ◌++◌, Option, none, some, Bytes, codes, ltb,
  if◌then◌else◌, assert,
}
use level_db.Slice.{equal, starts_with, remove_prefix}
use level_db.Decimal.{print_padded, in_buffer, NumberReader}

pub data FileType : Type 0 where
  log_file db_lock_file table_file descriptor_file current_file temp_file info_log_file : FileType

unfoldable pub make_file_name : Bytes → ℕ → Bytes → Bytes
make_file_name name number suffix =
    name ++ in_buffer 100 (print_padded number ++ codes "." ++ suffix)

unfoldable pub log_file_name : Bytes → ℕ → Option Bytes
unfolding make_file_name
log_file_name name number = assert (ltb 0 number) (some (make_file_name name number (codes "log")))

unfoldable pub table_file_name : Bytes → ℕ → Option Bytes
unfolding make_file_name
table_file_name name number =
    assert (ltb 0 number) (some (make_file_name name number (codes "ldb")))

unfoldable pub sst_table_file_name : Bytes → ℕ → Option Bytes
unfolding make_file_name
sst_table_file_name name number =
    assert (ltb 0 number) (some (make_file_name name number (codes "sst")))

unfoldable pub descriptor_file_name : Bytes → ℕ → Option Bytes
descriptor_file_name dbname number =
    assert (ltb 0 number)
      (some (dbname ++ in_buffer 100 (codes "/MANIFEST-" ++ print_padded number)))

unfoldable pub lock_file_name : Bytes → Bytes
lock_file_name dbname = dbname ++ codes "/LOCK"

unfoldable pub temp_file_name : Bytes → ℕ → Option Bytes
unfolding make_file_name
temp_file_name dbname number =
    assert (ltb 0 number) (some (make_file_name dbname number (codes "dbtmp")))

unfoldable pub info_log_file_name : Bytes → Bytes
info_log_file_name dbname = dbname ++ codes "/LOG"

unfoldable pub old_info_log_file_name : Bytes → Bytes
old_info_log_file_name dbname = dbname ++ codes "/LOG.old"

-- The branch of a name that begins with "MANIFEST-": nothing may follow the number.
manifest_type : Option (ℕ × Bytes) → Option (ℕ × FileType)
manifest_type none = none
manifest_type (some (num, [])) = some (num, FileType.descriptor_file)
manifest_type (some (num, c ∷ rest)) = none

-- The branch of a name that begins with a number: the suffix decides.
suffix_type : Option (ℕ × Bytes) → Option (ℕ × FileType)
suffix_type none = none
suffix_type (some (num, suffix)) =
    if equal suffix (codes ".log")
    then some (num, FileType.log_file)
    else if equal suffix (codes ".sst") || equal suffix (codes ".ldb")
    then some (num, FileType.table_file)
    else if equal suffix (codes ".dbtmp")
    then some (num, FileType.temp_file)
    else none

module _ (reader : NumberReader) where
  open reader use {consume}

  parse_manifest : Option Bytes → Option (ℕ × FileType)
  unfolding manifest_type
  parse_manifest none = none
  parse_manifest (some rest) = manifest_type (consume rest)

  unfoldable pub parse_file_name : Bytes → Option (ℕ × FileType)
  unfolding parse_manifest suffix_type
  parse_file_name fname =
      if equal fname (codes "CURRENT")
      then some (0, FileType.current_file)
      else if equal fname (codes "LOCK")
      then some (0, FileType.db_lock_file)
      else if equal fname (codes "LOG") || equal fname (codes "LOG.old")
      then some (0, FileType.info_log_file)
      else if starts_with fname (codes "MANIFEST-")
      then parse_manifest (remove_prefix fname 9)
      else suffix_type (consume fname)

-- ===== src/Db/CurrentFile.antt =====
-- `SetCurrentFile` of db/filename.cpp: the file CURRENT names the manifest in use.
use level_db.Prelude.{
  ℕ, ◌+◌, ◌^◌, ◌<◌, ◌≡◌, refl, subst, ◌++◌, Option, some, Bytes, codes, if◌then◌else◌, ◌>>=◌,
  assert, arith, length-append,
}
use level_db.Status.{Status, ok}
use level_db.Slice.{starts_with, remove_prefix, size}
use level_db.Slice.Prefix.{starts_with-append, remove_prefix-append}
use level_db.Decimal.{NumberReader}
use level_db.Env.{Env}
use level_db.FileName.{FileType, descriptor_file_name, temp_file_name, parse_file_name}
use level_db.FileName.RoundTrip.{parse-file_names}

module _ {W File Lock Logger : Type 0} (env : Env W File Lock Logger)
    (write_string_to_file_sync : Bytes → Bytes → W → Status × W)
    (current_file_name : Bytes → Bytes) where
  -- The text goes to a temporary file, which then takes the name CURRENT, or is deleted.
  unfoldable pub replace_current : Bytes → Bytes → Bytes → W → Status × W
  replace_current dbname text tmp w =
      let (s, w₁) = write_string_to_file_sync text tmp w in
      let (s', w₂) = if ok s then env.rename_file tmp (current_file_name dbname) w₁ else (s, w₁) in
      (s', if ok s' then w₂ else (env.delete_file tmp w₂).1)

  unfoldable pub set_current_file : Bytes → ℕ → W → Option (Status × W)
  unfolding replace_current
  set_current_file dbname descriptor_number w = do
    manifest ← descriptor_file_name dbname descriptor_number
    contents ←
        assert (starts_with manifest (dbname ++ codes "/"))
          (remove_prefix manifest (size dbname + 1))
    tmp ← temp_file_name dbname descriptor_number
    some (replace_current dbname (contents ++ codes "\n") tmp w)

  -- For a positive number of 64 bits no assertion of `SetCurrentFile` fails, and what it makes the
  -- contents of CURRENT is a line with a name that `ParseFileName` reads as the manifest of the
  -- number.
  set_current_file_lem :
      (reader : NumberReader) (dbname : Bytes) (n : ℕ) (w : W)
      → 0 < n
      → n < 2 ^ 64
      → (name : Bytes) × (tmp : Bytes) × (parse_file_name reader name
          ≡ some (n, FileType.descriptor_file))
        × (temp_file_name dbname n ≡ some tmp)
        × (set_current_file dbname n w ≡ some (replace_current dbname (name ++ codes "\n") tmp w))
  unfolding set_current_file
  set_current_file_lem reader dbname n w pos h =
      let (_, _, _, (temp, temp_named, temp_parsed), (name, named, parsed)) =
        parse-file_names reader dbname n pos h in
      let size_front : size (dbname ++ codes "/") ≡ size dbname + 1 =
        unfold size in (omega (arith, length-append dbname (codes "/"))) in
      let removed : remove_prefix ((dbname ++ codes "/") ++ name) (size dbname + 1) ≡ some name =
        subst (λ k. remove_prefix ((dbname ++ codes "/") ++ name) k ≡ some name) size_front
          (remove_prefix-append (dbname ++ codes "/") name) in
      (
        name,
        dbname ++ temp,
        parsed,
        temp_named,
        rw (named, starts_with-append (dbname ++ codes "/") name, removed, temp_named) refl,
      )

-- ===== src/Posix/Files.antt =====
-- The files of util/env_posix.cpp. An object that can be deleted is a record, and its destructor a
-- function on the world.
pub mod Manifest
pub mod Descriptors
use level_db.Prelude.{
  ℕ, ◌+◌, ◌%◌, ◌^◌, Bool, true, false, ◌||◌, not, List, [], ◌∷◌, Option, none, some, Bytes, codes,
  length, ltb, ◌==◌, if◌then◌else◌,
}
use level_db.Status.{Status, ok_status, ok, io_error}
use level_db.Slice.{starts_with}
use level_db.Posix.{System, posix_error}
use level_db.Posix.Limiter.{acquire, release}

pub record SequentialFile (Stream : Type 0) : Type 0 where
  pub filename : Bytes
  pub file : Stream

-- `PosixRandomAccessFile`; without a descriptor (`temporary_fd_`, and -1) it opens one on every
-- read.
pub record RandomAccessFile : Type 0 where
  pub filename : Bytes
  pub fd : Option ℕ

-- `PosixMmapReadableFile`
pub record MmapFile : Type 0 where
  pub filename : Bytes
  pub base : ℕ
  pub length_of : ℕ

-- `PosixWritableFile`; a null `file_` is `none`.
pub record WritableFile (Stream : Type 0) : Type 0 where
  pub filename : Bytes
  pub file : Option Stream

-- The directory and the last part of a path: what `strrchr(f, '/')` splits, or "." and all of it.
abbrev pub has_slash : Bytes → Bool
has_slash [] = false
has_slash (c ∷ s) = (c == b'/') || has_slash s

-- Before and behind the last slash of a path that has one.
unfoldable pub split_last : Bytes → Bytes × Bytes
split_last [] = ([], [])
split_last (c ∷ s) =
    let (dir, base) = split_last s in if has_slash s then (c ∷ dir, base) else ([], s)

unfoldable pub split_path : Bytes → Bytes × Bytes
unfolding split_last
split_path f = if has_slash f then split_last f else (codes ".", f)

module _ {W Stream Dir : Type 0} (sys : System W Stream Dir) where
  open sys use {
    last_error, open_file, close, pread, fsync, munmap, mapped, fclose, fread, feof, fseek, fwrite,
    fflush, fdatasync,
  }

  -- PosixSequentialFile::Read, Skip
  pub sequential_read : SequentialFile Stream → ℕ → W → Status × Bytes × W
  sequential_read f n w =
      let (result, w') = fread f.file n w in
      (
        (if ltb (length result) n
            then (if feof f.file w' then ok_status else posix_error sys f.filename w')
            else ok_status),
        result,
        w',
      )

  pub sequential_skip : SequentialFile Stream → ℕ → W → Status × W
  sequential_skip f n w =
      let (done, w') = fseek f.file n w in
      (if done then ok_status else posix_error sys f.filename w', w')

  pub delete_sequential : SequentialFile Stream → W → W
  delete_sequential f w = (fclose f.file w).1

  -- The constructor of `PosixRandomAccessFile`: without a resource of the limiter the descriptor is
  -- closed.
  unfoldable pub new_random_access : Bytes → ℕ → ℕ → W → RandomAccessFile × ℕ × W
  new_random_access fname fd limit w =
      let (acquired, limit') = acquire limit in
      if acquired
      then (record { filename = fname; fd = some fd }, limit', w)
      else (record { filename = fname; fd = none }, limit', close fd w)

  pub delete_random_access : RandomAccessFile → ℕ → W → ℕ × W
  delete_random_access f limit w = elim f.fd [
    | none ↦ (limit, w)
    | some fd ↦ (release limit, close fd w)
  ]

  -- Behind `pread` with the descriptor `fd`; a read with success closes it, be it temporary or not.
  unfoldable pub read_result : RandomAccessFile → ℕ → Option Bytes × W → Status × Bytes × W
  read_result f fd (none, w) = (posix_error sys f.filename w, [], w)
  read_result f fd (some bytes, w) = (ok_status, bytes, close fd w)

  -- Behind the descriptor, which may be one that was opened for this read.
  unfoldable pub read_opened : RandomAccessFile → ℕ → ℕ → Option ℕ × W → Status × Bytes × W
  unfolding read_result
  read_opened f offset n (none, w) = (posix_error sys f.filename w, [], w)
  read_opened f offset n (some fd, w) = read_result f fd (pread fd n offset w)

  unfoldable pub descriptor_of : Bytes → Option ℕ → W → Option ℕ × W
  descriptor_of filename none w = open_file filename w
  descriptor_of filename (some fd) w = (some fd, w)

  -- PosixRandomAccessFile::Read
  unfoldable pub random_access_read : RandomAccessFile → ℕ → ℕ → W → Status × Bytes × W
  unfolding read_opened descriptor_of
  random_access_read f offset n w = read_opened f offset n (descriptor_of f.filename f.fd w)

  -- PosixMmapReadableFile::Read; 22 is `EINVAL`, `offset + n` a number of 64 bits.
  pub mmap_read : (ℕ → Bytes) → MmapFile → ℕ → ℕ → W → Status × Bytes
  mmap_read strerror f offset n w =
      if ltb f.length_of ((offset + n) % 2 ^ 64)
      then (io_error f.filename (strerror 22), [])
      else (ok_status, mapped f.base offset n w)

  pub delete_mmap : MmapFile → ℕ → W → ℕ × W
  delete_mmap f limit w = (release limit, munmap f.base f.length_of w)

  -- `some file` in the functions of `PosixWritableFile` is a file that is not closed; on a null
  -- pointer the C library faults.
  pub writable_append : WritableFile Stream → Bytes → W → Option (Status × W)
  writable_append f bytes w = elim f.file [
    | none ↦ none
    | some file ↦
        let (written, w') = fwrite file bytes w in
        some (if written == length bytes then ok_status else posix_error sys f.filename w', w')
  ]

  pub writable_close : WritableFile Stream → W → Option (Status × WritableFile Stream × W)
  writable_close f w = elim f.file [
    | none ↦ none
    | some file ↦
        let (done, w') = fclose file w in
        some
          (if done then ok_status else posix_error sys f.filename w', record f { file = none }, w')
  ]

  pub writable_flush : WritableFile Stream → W → Option (Status × W)
  writable_flush f w = elim f.file [
    | none ↦ none
    | some file ↦
        let (done, w') = fflush file w in
        some (if done then ok_status else posix_error sys f.filename w', w')
  ]

  pub delete_writable : WritableFile Stream → W → W
  delete_writable f w = elim f.file [ none ↦ w | some file ↦ (fclose file w).1 ]

  -- The directory of a manifest is brought to the disk.
  unfoldable pub sync_opened : Bytes → Bytes → Option ℕ × W → Status × W
  sync_opened filename dir (none, w) = (posix_error sys filename w, w)
  sync_opened filename dir (some fd, w) =
      let (done, w') = fsync fd w in
      (if done then ok_status else posix_error sys dir w', close fd w')

  unfoldable pub sync_dir_if_manifest : WritableFile Stream → W → Status × W
  unfolding split_path sync_opened
  sync_dir_if_manifest f w =
      let (dir, basename) = split_path f.filename in
      if starts_with basename (codes "MANIFEST")
      then sync_opened f.filename dir (open_file dir w)
      else (ok_status, w)

  -- `fflush` and `fdatasync`, the second only where the first succeeds.
  unfoldable pub sync_data : Bytes → Stream → W → Status × W
  sync_data filename file w =
      let (flushed, w₁) = fflush file w in
      let (synced, w₂) = fdatasync file w₁ in
      if not flushed
      then (posix_error sys filename w₁, w₁)
      else if synced
      then (ok_status, w₂)
      else (posix_error sys filename w₂, w₂)

  unfoldable pub writable_sync : WritableFile Stream → W → Option (Status × W)
  unfolding sync_dir_if_manifest sync_data
  writable_sync f w =
      let (s, w') = sync_dir_if_manifest f w in
      if not (ok s)
      then some (s, w')
      else elim f.file [ none ↦ none | some file ↦ some (sync_data f.filename file w') ]

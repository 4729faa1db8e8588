-- ===== src/Posix/Environment.antt =====
-- The class `PosixEnv` of util/env_posix.cpp.
pub mod Balance
pub mod Opened
use level_db.Prelude.{
  ℕ, Bool, true, false, List, [], ◌∷◌, Option, none, some, Bytes, codes, if◌then◌else◌,
}
use level_db.Status.{Status, ok_status, ok}
use level_db.Posix.{System, posix_error}
use level_db.Posix.Limiter.{acquire, release}
use level_db.Posix.Files.{
  SequentialFile, RandomAccessFile, MmapFile, WritableFile, new_random_access,
}

-- `mmap_limit_` and `fd_limit_`
pub record Limits : Type 0 where
  pub mmap_limit : ℕ
  pub fd_limit : ℕ

-- The two kinds of `RandomAccessFile`.
pub data RandomAccess : Type 0 where
  direct : RandomAccessFile → RandomAccess
  mapped_file : MmapFile → RandomAccess

module _ {W Stream Dir : Type 0} (sys : System W Stream Dir) where
  open sys use {
    open_file, close, mmap, fopen, access, opendir, entries, closedir, unlink, mkdir, get_file_size,
  }

  pub stream_opened : Bytes → Option Stream × W → Status × Option (SequentialFile Stream) × W
  stream_opened fname (none, w) = (posix_error sys fname w, none, w)
  stream_opened fname (some f, w) = (ok_status, some (record { filename = fname; file = f }), w)

  pub new_sequential_file : Bytes → W → Status × Option (SequentialFile Stream) × W
  unfolding stream_opened
  new_sequential_file fname w = stream_opened fname (fopen fname (codes "r") w)

  pub map_result : Bytes → ℕ → Option ℕ × W → Status × Option RandomAccess × W
  map_result fname size (none, w) = (posix_error sys fname w, none, w)
  map_result fname size (some base, w) = (
    ok_status,
    some (mapped_file (record { filename = fname; base = base; length_of = size })),
    w,
  )

  -- The branch with a resource of `mmap_limit_`, which is given back after an error.
  pub map_file : Bytes → ℕ → Limits → W → Status × Option RandomAccess × Limits × W
  unfolding map_result
  map_file fname fd limits w =
      let (s, size, w₁) = get_file_size fname w in
      let (s', file, w₂) =
        if ok s then map_result fname size (mmap size fd w₁) else (s, none, w₁) in
      (
        s',
        file,
        (if ok s' then limits else record limits { mmap_limit = release limits.mmap_limit }),
        close fd w₂,
      )

  pub random_access_opened :
      Bytes → Limits → Option ℕ × W → Status × Option RandomAccess × Limits × W
  unfolding map_file
  random_access_opened fname limits (none, w) = (posix_error sys fname w, none, limits, w)
  random_access_opened fname limits (some fd, w) =
      let (acquired, mmap_limit) = acquire limits.mmap_limit in
      let limits' = record limits { mmap_limit = mmap_limit } in
      let (file, fd_limit, w') = new_random_access sys fname fd limits.fd_limit w in
      if acquired
      then map_file fname fd limits' w
      else (ok_status, some (direct file), record limits' { fd_limit = fd_limit }, w')

  pub new_random_access_file : Bytes → Limits → W → Status × Option RandomAccess × Limits × W
  unfolding random_access_opened
  new_random_access_file fname limits w = random_access_opened fname limits (open_file fname w)

  pub writable_opened : Bytes → Option Stream × W → Status × Option (WritableFile Stream) × W
  writable_opened fname (none, w) = (posix_error sys fname w, none, w)
  writable_opened fname (some f, w) =
      (ok_status, some (record { filename = fname; file = some f }), w)

  pub new_writable_file : Bytes → W → Status × Option (WritableFile Stream) × W
  unfolding writable_opened
  new_writable_file fname w = writable_opened fname (fopen fname (codes "w") w)

  pub new_appendable_file : Bytes → W → Status × Option (WritableFile Stream) × W
  unfolding writable_opened
  new_appendable_file fname w = writable_opened fname (fopen fname (codes "a") w)

  pub file_exists : Bytes → W → Bool
  file_exists fname w = access fname w

  pub directory_opened : Bytes → Option Dir × W → Status × List Bytes × W
  directory_opened dir (none, w) = (posix_error sys dir w, [], w)
  directory_opened dir (some d, w) = (ok_status, entries d w, closedir d w)

  pub get_children : Bytes → W → Status × List Bytes × W
  unfolding directory_opened
  get_children dir w = directory_opened dir (opendir dir w)

  pub delete_file : Bytes → W → Status × W
  delete_file fname w =
      let (done, w') = unlink fname w in (if done then ok_status else posix_error sys fname w', w')

  pub create_dir : Bytes → W → Status × W
  create_dir name w =
      let (done, w') = mkdir name w in (if done then ok_status else posix_error sys name w', w')

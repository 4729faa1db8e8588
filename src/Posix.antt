-- ===== src/Posix.antt =====
-- util/env_posix.cpp: the environment over POSIX. This file holds the interface to the C library
-- and the kernel. A call that answers a negative number or a null pointer answers `none`, one that
-- answers zero for success answers a Boolean. `strerror(errno)` is what the world says of its last
-- error.
pub mod Limiter
pub mod Files
pub mod Environment
pub mod LockTable
pub mod Sample
use level_db.Prelude.{ℕ, Bool, List, Option, Bytes}
use level_db.Status.{Status, io_error}

pub record System (W Stream Dir : Type 0) : Type 0 where
  pub last_error : W → Bytes
  -- open(name, O_RDONLY), close, pread(fd, count, offset), fsync, mmap(size, fd), munmap
  pub open_file : Bytes → W → Option ℕ × W
  pub close : ℕ → W → W
  pub pread : ℕ → ℕ → ℕ → W → Option Bytes × W
  pub fsync : ℕ → W → Bool × W
  pub mmap : ℕ → ℕ → W → Option ℕ × W
  pub munmap : ℕ → ℕ → W → W
  -- The bytes of a mapped region: its base, an offset and a length.
  pub mapped : ℕ → ℕ → ℕ → W → Bytes
  -- fopen(name, mode), fclose, fread, feof, fseek, fwrite, fflush, fdatasync(fileno(f))
  pub fopen : Bytes → Bytes → W → Option Stream × W
  pub fclose : Stream → W → Bool × W
  pub fread : Stream → ℕ → W → Bytes × W
  pub feof : Stream → W → Bool
  pub fseek : Stream → ℕ → W → Bool × W
  pub fwrite : Stream → Bytes → W → ℕ × W
  pub fflush : Stream → W → Bool × W
  pub fdatasync : Stream → W → Bool × W
  -- access(name, F_OK), opendir, the names that `readdir` answers, closedir, unlink, mkdir
  pub access : Bytes → W → Bool
  pub opendir : Bytes → W → Option Dir × W
  pub entries : Dir → W → List Bytes
  pub closedir : Dir → W → W
  pub unlink : Bytes → W → Bool × W
  pub mkdir : Bytes → W → Bool × W
  -- `GetFileSize`, which `PosixEnv` inherits and the repository does not define.
  pub get_file_size : Bytes → W → Status × ℕ × W

-- `IOError(context, errno)`
abbrev pub posix_error : {W Stream Dir : Type 0} → System W Stream Dir → Bytes → W → Status
posix_error sys context w = io_error context (sys.last_error w)

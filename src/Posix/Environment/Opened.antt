-- ===== src/Posix/Environment/Opened.antt =====
-- What `PosixEnv` answers when it opens a file.
use level_db.Prelude.{ℕ, ◌≡◌, inl, inr, refl, is_some, Option, none, some, Bytes, codes, Bool-cases}
use level_db.Status.{Status, ok}
use level_db.Posix.{System}
use level_db.Posix.Limiter.{acquire}
use level_db.Posix.Environment.{
  Limits, stream_opened, new_sequential_file, map_result, map_file, random_access_opened,
  new_random_access_file, writable_opened, new_writable_file, new_appendable_file,
}

-- The status is a success exactly if there is a file.
abbrev IsOpened {ℓ} : {A : Type ℓ} → Status → Option A → Type 0
IsOpened s file = ok s ≡ is_some file

module _ {W Stream Dir : Type 0} (sys : System W Stream Dir) where
  writable_opened-IsOpened :
      (fname : Bytes) (r : Option Stream × W)
      → IsOpened (writable_opened sys fname r).0 (writable_opened sys fname r).1
  unfolding writable_opened
  writable_opened-IsOpened fname (none, w) = refl
  writable_opened-IsOpened fname (some f, w) = refl

  stream_opened-IsOpened :
      (fname : Bytes) (r : Option Stream × W)
      → IsOpened (stream_opened sys fname r).0 (stream_opened sys fname r).1
  unfolding stream_opened
  stream_opened-IsOpened fname (none, w) = refl
  stream_opened-IsOpened fname (some f, w) = refl

  map_result-IsOpened :
      (fname : Bytes) (size : ℕ) (r : Option ℕ × W)
      → IsOpened (map_result sys fname size r).0 (map_result sys fname size r).1
  unfolding map_result
  map_result-IsOpened fname size (none, w) = refl
  map_result-IsOpened fname size (some base, w) = refl

  map_file-IsOpened :
      (fname : Bytes) (fd : ℕ) (limits : Limits) (w : W)
      → IsOpened (map_file sys fname fd limits w).0 (map_file sys fname fd limits w).1
  unfolding map_file
  map_file-IsOpened fname fd limits w =
      let (s, size, w₁) = sys.get_file_size fname w in
      elim (Bool-cases (ok s)) [
        | inl e ↦ rw e (map_result-IsOpened fname size (sys.mmap size fd w₁))
        | inr e ↦ rw e e
      ]

  random_access_opened-IsOpened :
      (fname : Bytes) (limits : Limits) (r : Option ℕ × W)
      → IsOpened
          (random_access_opened sys fname limits r).0
          (random_access_opened sys fname limits r).1
  unfolding random_access_opened
  random_access_opened-IsOpened fname limits (none, w) = refl
  random_access_opened-IsOpened fname limits (some fd, w) =
      let (acquired, mmap_limit) = acquire limits.mmap_limit in
      elim (Bool-cases acquired) [
        | inl e ↦ rw e (map_file-IsOpened fname fd (record limits { mmap_limit = mmap_limit }) w)
        | inr e ↦ rw e refl
      ]

  -- The four functions of `PosixEnv` that open a file answer a file exactly where they answer a
  -- success, whatever the calls of the system answer.
  new_files-IsOpened :
      (fname : Bytes) (limits : Limits) (w : W)
      → IsOpened (new_sequential_file sys fname w).0 (new_sequential_file sys fname w).1
        × IsOpened
            (new_random_access_file sys fname limits w).0
            (new_random_access_file sys fname limits w).1
        × IsOpened (new_writable_file sys fname w).0 (new_writable_file sys fname w).1
        × IsOpened (new_appendable_file sys fname w).0 (new_appendable_file sys fname w).1
  unfolding new_sequential_file new_random_access_file new_writable_file new_appendable_file
  new_files-IsOpened fname limits w = (
    stream_opened-IsOpened fname (sys.fopen fname (codes "r") w),
    random_access_opened-IsOpened fname limits (sys.open_file fname w),
    writable_opened-IsOpened fname (sys.fopen fname (codes "w") w),
    writable_opened-IsOpened fname (sys.fopen fname (codes "a") w),
  )

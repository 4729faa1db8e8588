-- ===== src/Posix/Environment/Balance.antt =====
-- The limiters behind `NewRandomAccessFile`.
use level_db.Prelude.{
  ℕ, ◌+◌, ◌-◌, ◌^◌, ◌<◌, ◌≡◌, inl, inr, refl, true, false, Option, none, some, Bytes, if◌then◌else◌,
  Bool-cases, arith,
}
use level_db.Status.{Status, ok}
use level_db.Posix.{System}
use level_db.Posix.Limiter.{acquire, release, is_positive}
use level_db.Posix.Files.{new_random_access}
use level_db.Posix.Environment.{
  Limits, RandomAccess, direct, mapped_file, map_result, map_file, random_access_opened,
  new_random_access_file,
}

-- The resources of the two limiters that a result holds.
abbrev pub regions_of : Option RandomAccess → ℕ
regions_of (some (mapped_file f)) = 1
regions_of _ = 0

abbrev descriptors_in : Option ℕ → ℕ
descriptors_in none = 0
descriptors_in (some fd) = 1

abbrev pub descriptors_of : Option RandomAccess → ℕ
descriptors_of (some (direct f)) = descriptors_in f.fd
descriptors_of _ = 0

-- A status and a file: a success with a file, or an error without one.
abbrev pub Agree : Status → Option RandomAccess → Type 0
Agree s none = ok s ≡ false
Agree s (some f) = ok s ≡ true

module _ {W Stream Dir : Type 0} (sys : System W Stream Dir) where
  -- What the limiters have left, and what the result holds, is what they had.
  pub record Balanced (limits : Limits) (r : Status × Option RandomAccess × Limits × W)
      : Type 0 where
    pub regions : r.2.mmap_limit + regions_of r.1 ≡ limits.mmap_limit
    pub descriptors : r.2.fd_limit + descriptors_of r.1 ≡ limits.fd_limit
    pub agree : Agree r.0 r.1

  -- What a mapping answers.
  abbrev IsMapped : Status → Option RandomAccess → Type 0
  IsMapped s none = ok s ≡ false
  IsMapped s (some (direct f)) = ⊥
  IsMapped s (some (mapped_file f)) = ok s ≡ true

  map_result-IsMapped :
      (fname : Bytes) (size : ℕ) (r : Option ℕ × W)
      → IsMapped (map_result sys fname size r).0 (map_result sys fname size r).1
  unfolding map_result
  map_result-IsMapped fname size (none, w) = refl
  map_result-IsMapped fname size (some base, w) = refl

  -- A resource that was taken is given back exactly after an error.
  settled :
      (limits limits' : Limits) (s : Status) (file : Option RandomAccess) (w : W)
      → limits.mmap_limit < 2 ^ 63
      → limits'.mmap_limit + 1 ≡ limits.mmap_limit
      → limits'.fd_limit ≡ limits.fd_limit
      → IsMapped s file
      → Balanced limits (
        s,
        file,
        (if ok s then limits' else record limits' { mmap_limit = release limits'.mmap_limit }),
        w,
      )
  unfolding release
  settled limits limits' s none w small taken same m =
      rw m (record { regions = omega arith; descriptors = omega arith; agree = m })
  settled limits limits' s (some (direct f)) w small taken same m = absurd m
  settled limits limits' s (some (mapped_file f)) w small taken same m =
      rw m (record { regions = taken; descriptors = omega arith; agree = m })

  map_file-Balanced :
      (fname : Bytes) (fd : ℕ) (limits limits' : Limits) (w : W)
      → limits.mmap_limit < 2 ^ 63
      → limits'.mmap_limit + 1 ≡ limits.mmap_limit
      → limits'.fd_limit ≡ limits.fd_limit
      → Balanced limits (map_file sys fname fd limits' w)
  unfolding map_file
  map_file-Balanced fname fd limits limits' w small taken same =
      let (s, size, w₁) = sys.get_file_size fname w in
      let r = map_result sys fname size (sys.mmap size fd w₁) in
      elim (Bool-cases (ok s)) [
        | inl e ↦ rw e (
            settled limits limits' r.0 r.1 (sys.close fd r.2) small taken same
              (map_result-IsMapped fname size (sys.mmap size fd w₁)))
        | inr e ↦ rw e (settled limits limits' s none (sys.close fd w₁) small taken same e)
      ]

  opened-Balanced :
      (fname : Bytes) (limits : Limits) (r : Option ℕ × W)
      → limits.mmap_limit < 2 ^ 63
      → limits.fd_limit < 2 ^ 63
      → Balanced limits (random_access_opened sys fname limits r)
  unfolding random_access_opened new_random_access acquire
  opened-Balanced fname limits (none, w) small small' = (record {
    regions = omega arith;
    descriptors = omega arith;
    agree = refl;
  })
  opened-Balanced fname limits (some fd, w) small small' =
      elim (Bool-cases (is_positive limits.mmap_limit)) [
        | inl e ↦ rw e (
            map_file-Balanced fname fd limits (record limits { mmap_limit = limits.mmap_limit - 1 })
              w small (ground arith) refl)
        | inr e ↦ elim (Bool-cases (is_positive limits.fd_limit)) [
          | inl k ↦
              rw (e, k) (record { regions = omega arith; descriptors = ground arith; agree = refl })
          | inr k ↦
              rw (e, k) (record { regions = omega arith; descriptors = omega arith; agree = refl })
        ]
      ]

  -- `NewRandomAccessFile`, with limiters for less than 2^63 resources, answers a file with a
  -- success or an error without a file; a mapped file holds one resource of `mmap_limit_`, a file
  -- with a descriptor of its own one of `fd_limit_`, and no other resource is taken or given back.
  pub new_random_access_file-Balanced :
      (fname : Bytes) (limits : Limits) (w : W)
      → limits.mmap_limit < 2 ^ 63
      → limits.fd_limit < 2 ^ 63
      → Balanced limits (new_random_access_file sys fname limits w)
  unfolding new_random_access_file
  new_random_access_file-Balanced fname limits w small small' =
      opened-Balanced fname limits (sys.open_file fname w) small small'

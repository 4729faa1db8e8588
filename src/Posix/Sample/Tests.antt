-- ===== src/Posix/Sample/Tests.antt =====
-- Runs of the environment in the small world.
use level_db.Prelude.{◌==◌, ◌+◌, ◌≤◌, ◌≡◌, ◌⊎◌, refl, true, false, [], ◌∷◌, some, codes, arith}
use level_db.Status.{ok_status}
use level_db.Slice.{starts_with}
use level_db.Posix.Limiter.{System, Reach, start, later, pick, pass, lock, idle, passed, entered}
use level_db.Posix.Limiter.Bound.{sum, holds, critical, Reach-holds}
use level_db.Posix.Files.{split_path, writable_sync, sync_dir_if_manifest}
use level_db.Posix.Files.Descriptors.{
  NotOpened, BytesRead, Leaked, read_temporary, random_access_read_temporary,
}
use level_db.Posix.Files.Manifest.{DirSynced, writable_sync_success}
use level_db.Posix.Environment.{new_random_access_file}
use level_db.Posix.Environment.Balance.{Balanced, new_random_access_file-Balanced}
use level_db.Posix.Sample.{World, empty_world, sample_system, sample_descriptors}

-- Two threads pass the first test of a limiter for one resource, and one has the mutex.
abbrev two_passed : System
two_passed = record { allowed = 1; locked = true; threads = entered ∷ passed ∷ [] }

two_passed-Reach : Reach 1 2 two_passed
two_passed-Reach =
    later
      (later (later start (pick [] (idle ∷ []) (pass refl))) (pick (passed ∷ []) [] (pass refl)))
      (pick [] (passed ∷ []) lock)

Reach-holds_example :
    (two_passed.allowed + sum holds two_passed.threads ≡ 1) × (sum critical two_passed.threads ≤ 1)
Reach-holds_example = Reach-holds (omega arith) two_passed-Reach

new_random_access_file-Balanced_example :
    Balanced sample_system
      (record { mmap_limit = 1000; fd_limit = 50 })
      (new_random_access_file sample_system
        (codes "000005.ldb")
        (record { mmap_limit = 1000; fd_limit = 50 })
        empty_world)
new_random_access_file-Balanced_example =
    new_random_access_file-Balanced sample_system (codes "000005.ldb")
      (record { mmap_limit = 1000; fd_limit = 50 }) empty_world (omega arith) (omega arith)

-- A world where descriptor 3 is open.
abbrev one_open : World
one_open = record { fds = λ i. i == 3; next = 4 }

random_access_read_temporary_example :
    NotOpened sample_system sample_descriptors
      (codes "a")
      one_open
      (read_temporary sample_system sample_descriptors (codes "a") 0 5 one_open)
    ⊎ (BytesRead sample_system sample_descriptors
          (codes "a")
          0
          5
          one_open
          (read_temporary sample_system sample_descriptors (codes "a") 0 5 one_open)
        ⊎ Leaked sample_system sample_descriptors
            (codes "a")
            0
            5
            one_open
            (read_temporary sample_system sample_descriptors (codes "a") 0 5 one_open))
random_access_read_temporary_example =
    random_access_read_temporary sample_system sample_descriptors (codes "a") 0 5 one_open

writable_sync_success_example :
    ((starts_with (split_path (codes "db/MANIFEST-000001")).1 (codes "MANIFEST") ≡ false)
      ⊎ DirSynced sample_system (split_path (codes "db/MANIFEST-000001")).0 empty_world)
    × ((v : World) × (v
          ≡ (sync_dir_if_manifest sample_system
              (record { filename = codes "db/MANIFEST-000001"; file = some 7 })
              empty_world).1)
        × ((sample_system.fflush 7 v).0 ≡ true)
        × ((sample_system.fdatasync 7 (sample_system.fflush 7 v).1).0 ≡ true))
unfolding writable_sync starts_with
writable_sync_success_example =
    writable_sync_success sample_system (codes "db/MANIFEST-000001") 7 empty_world
      (sync_dir_if_manifest sample_system
        (record { filename = codes "db/MANIFEST-000001"; file = some 7 }) empty_world).1
      ok_status refl refl

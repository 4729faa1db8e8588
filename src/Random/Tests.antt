-- ===== src/Random/Tests.antt =====
-- The theorems on the random number generator at concrete seeds.
use level_db.Prelude.{◌*◌, ◌%◌, ◌≡◌, refl, arith}
use level_db.Random.Cycle.{IsSeed, next_lem}
use level_db.Random.{Random, init, next, multiplier, modulus}

abbrev three_hundred_one : Random
three_hundred_one = record { seed = 301 }

bad_seeds : ((init 0).seed ≡ 1) × ((init 0xffffffff).seed ≡ 1)
unfolding init
bad_seeds = (refl, refl)

-- 301 * 16807 * 16807 needs both reductions.
second_draw : (next (next three_hundred_one).0).1 ≡ 1273187716
unfolding next
second_draw = refl

next_lem_example :
    ((next three_hundred_one).1 ≡ 301 * multiplier % modulus)
    × ((next three_hundred_one).0.seed ≡ 301 * multiplier % modulus)
    × IsSeed (next three_hundred_one).0.seed
next_lem_example = next_lem three_hundred_one (omega arith)

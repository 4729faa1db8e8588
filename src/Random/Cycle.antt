-- ===== src/Random/Cycle.antt =====
-- The generator as a product in the field of 2^31 - 1 elements, and its derived draws.
use level_db.Prelude.{ℕ, ◌+◌, ◌*◌, ◌%◌, ◌^◌, ◌≤◌, ◌<◌, ◌≡◌, arith}
use native.Mathlib.Nat.{mod-lt, pow-le-pow_right}
use level_db.Prelude.Bits.{bit_and_mask_31}
use level_db.Random.{Random, modulus, multiplier, init, next_seed, next, uniform, skewed}

-- The states that the generator may be in: `seed_` is neither 0 nor M.
abbrev pub IsSeed : ℕ → Type 0
IsSeed s = (0 < s) × (s < modulus)

pub init-IsSeed : (s : ℕ) → IsSeed (init s).seed
unfolding init
init-IsSeed s = ground (arith, bit_and_mask_31 s)

next_seed_lem : (s : ℕ) → IsSeed s → next_seed s ≡ s * multiplier % modulus
unfolding next_seed
next_seed_lem s h = ground (arith, bit_and_mask_31 (s * multiplier % 2 ^ 64))

-- From a seed between 1 and M - 1 a draw is exactly the seed times 16807 modulo 2^31 - 1, which is
-- also the new seed, and lies between 1 and M - 1 again: no word of the computation wraps around.
pub next_lem :
    (r : Random)
    → IsSeed r.seed
    → ((next r).1 ≡ r.seed * multiplier % modulus)
      × ((next r).0.seed ≡ r.seed * multiplier % modulus)
      × IsSeed (next r).0.seed
unfolding next
next_lem r h = omega (arith, next_seed_lem r.seed h)

-- Two generators with different seeds have different seeds after a draw: the generator permutes
-- its states, so a sequence of draws never runs into a cycle that it did not start on.
pub next-injective :
    (r t : Random)
    → IsSeed r.seed
    → IsSeed t.seed
    → (next r).0.seed ≡ (next t).0.seed
    → r.seed ≡ t.seed
unfolding next
next-injective r t h k e = omega (arith, next_seed_lem r.seed h, next_seed_lem t.seed k)

pub uniform_bound : (r : Random) (n : ℕ) → 0 < n → (uniform r n).1 < n
unfolding uniform next
uniform_bound r n h = mod-lt (next_seed r.seed) h

-- `Skewed` draws a number below 2^max_log, for every `max_log` at which `1 << max_log` is an `int`.
pub skewed_bound : (r : Random) (max_log : ℕ) → max_log < 31 → (skewed r max_log).1 < 2 ^ max_log
unfolding skewed
skewed_bound r max_log h =
    let (r', base) = uniform r (max_log + 1) in
    let small : base < max_log + 1 = uniform_bound r (max_log + 1) (omega arith) in
    let n_le : 2 ^ base ≤ 2 ^ max_log = pow-le-pow_right (omega arith) (omega arith) in
    let n_small : 2 ^ base ≤ 2 ^ 30 = pow-le-pow_right (omega arith) {j = 30} (omega arith) in
    let n_pos : 2 ^ 0 ≤ 2 ^ base = pow-le-pow_right (omega arith) {i = 0} (omega arith) in
    omega (arith, uniform_bound r' (2 ^ base % 2 ^ 32))

-- ===== src/Random.antt =====
-- util/random.hpp: the random number generator, with the wrap-around of its words written out.
-- `int` arguments are taken non-negative, as their comments require.
pub mod Cycle
pub mod Tests
use level_db.Prelude.{ℕ, ◌+◌, ◌-◌, ◌*◌, ◌/◌, ◌%◌, ◌^◌, bit_and, ◌||◌, ltb, ◌==◌, if◌then◌else◌}

pub record Random : Type 0 where
  pub seed : ℕ

-- M = 2^31 - 1 and A = 16807
abbrev pub modulus : ℕ
modulus = 2147483647

abbrev pub multiplier : ℕ
multiplier = 16807

-- The constructor.
pub init : ℕ → Random
init s =
    let masked = bit_and s 0x7fffffff in
    record { seed = if (masked == 0) || (masked == modulus) then 1 else masked }

-- The seed that one round leaves. `seed_ * A` is a product of 64 bits, its sum one of 32.
next_seed : ℕ → ℕ
next_seed s =
    let product = (s * multiplier) % 2 ^ 64 in
    let sum = (product / 2 ^ 31 + bit_and product modulus) % 2 ^ 32 in
    if ltb modulus sum then sum - modulus else sum

pub next : Random → Random × ℕ
unfolding next_seed
next r = (record r { seed = next_seed r.seed }, next_seed r.seed)

pub uniform : Random → ℕ → Random × ℕ
unfolding next
uniform r n = let (r', x) = next r in (r', x % n)

pub skewed : Random → ℕ → Random × ℕ
unfolding uniform
skewed r max_log = let (r', base) = uniform r (max_log + 1) in uniform r' (2 ^ base % 2 ^ 32)

-- ===== src/Prelude/Bits.antt =====
-- A conjunction with 2^31 - 1 is a remainder by 2^31.
use Prim.Native.Nat.{
  ℕ, zero, suc, ◌+◌, ◌*◌, ◌/◌, ◌%◌, ◌≤◌, ◌<◌, min, bit_and, digits, bit_and-bitwise,
}
use mathlib.Core.Path.{◌≡◌, refl, ap, ◌∙◌}
use native.Mathlib.Nat.{mul-add}
use native.Mathlib.Omega.{arith}

-- A number of k digits that are all 1.
all_ones : ℕ → ℕ
all_ones zero = 0
all_ones (suc k) = 1 + 2 * all_ones k

-- The k lowest digits.
lowest : ℕ → ℕ → ℕ
lowest zero a = 0
lowest (suc k) a = 2 * lowest k (a / 2) + a % 2

lowest_zero : (k : ℕ) → lowest k 0 ≡ 0
unfolding lowest
lowest_zero zero = refl
lowest_zero (suc k) = omega (arith, lowest_zero k)

none_kept : (n a : ℕ) → digits (λ b. zero) min n a 0 ≡ 0
none_kept zero a = refl
none_kept (suc n) zero = refl
none_kept (suc n) (suc a) = omega (arith, none_kept n (suc a / 2))

ones_keep : (n k a : ℕ) → a ≤ n → digits (λ b. zero) min n a (all_ones k) ≡ lowest k a
unfolding all_ones lowest
ones_keep n zero a h = none_kept n a
ones_keep zero (suc k) zero h = omega (arith, lowest_zero k)
ones_keep zero (suc k) (suc a) h = absurd (omega arith)
ones_keep (suc n) (suc k) zero h = omega (arith, lowest_zero k)
ones_keep (suc n) (suc k) (suc a) h =
    let rest = ones_keep n k (suc a / 2) (omega arith) in
    let next : (1 + 2 * all_ones k) / 2 ≡ all_ones k = omega arith in
    omega (arith, rest, ap (digits (λ b. zero) min n (suc a / 2)) next)

-- 2^k by doubling, and the remainder by it.
power : ℕ → ℕ
power zero = 1
power (suc k) = power k + power k

lowest_lem : (k a : ℕ) → (lowest k a < power k) × (q : ℕ) × (a ≡ lowest k a + q * power k)
unfolding lowest power
lowest_lem zero a = (omega arith, a, omega arith)
lowest_lem (suc k) a =
    let (small, q, same) = lowest_lem k (a / 2) in
    let doubled : q * (power k + power k) ≡ q * power k + q * power k =
      mul-add q (power k) (power k) in
    (omega (arith, small), q, omega (arith, same, doubled))

-- The masks of the source.
pub bit_and_mask_31 : (a : ℕ) → bit_and a 0x7fffffff ≡ a % 2147483648
unfolding all_ones power
bit_and_mask_31 a =
    let (small, q, same) = lowest_lem 31 a in
    bit_and-bitwise a 0x7fffffff ∙ ones_keep a 31 a (omega arith) ∙ omega (arith, small, same)

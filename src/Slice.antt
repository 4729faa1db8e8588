-- ===== src/Slice.antt =====
-- include/slice.hpp: a slice is the range of bytes that it refers to. An operation whose `assert`
-- fails has no result. `memcmp` promises the sign of its result alone, and its callers read no
-- more.
pub mod Order
pub mod Prefix
pub mod Tests
use level_db.Prelude.{
  ℕ, zero, suc, ◌+◌, ◌-◌, ◌≤◌, ◌<◌, min, ◌≡◌, Bool, true, false, not, ◌&&◌, List, [], ◌∷◌, Option,
  none, some, Bytes, length, get_elem?, take, drop, ltb, leb, ◌==◌, if◌then◌else◌,
}

-- The sign of an `int`.
pub data Sign : Type 0 where
  minus nil plus : Sign

-- `memcmp(a, b, n)` of the C library over the first `n` bytes, which are compared as unsigned.
pub memcmp : Bytes → Bytes → ℕ → Sign
memcmp a b zero = Sign.nil
memcmp [] b (suc n) = Sign.nil
memcmp (x ∷ a) [] (suc n) = Sign.nil
memcmp (x ∷ a) (y ∷ b) (suc n) =
    let rest = memcmp a b n in if ltb x y then Sign.minus else if ltb y x then Sign.plus else rest

abbrev is_nil : Sign → Bool
is_nil Sign.minus = false
is_nil Sign.nil = true
is_nil Sign.plus = false

-- `Slice()`, and what `clear` leaves.
abbrev pub empty_slice : Bytes
empty_slice = []

unfoldable pub size : Bytes → ℕ
size s = length s

-- `operator[]`
unfoldable pub at : Bytes → ℕ → Option ℕ
at s n = get_elem? s n

unfoldable pub remove_prefix : Bytes → ℕ → Option Bytes
unfolding size
remove_prefix s n = if leb n (size s) then some (drop n s) else none

unfoldable pub starts_with : Bytes → Bytes → Bool
unfolding size memcmp
starts_with s x = leb (size x) (size s) && is_nil (memcmp s x (size x))

-- `operator==` and `operator!=`
unfoldable pub equal : Bytes → Bytes → Bool
unfolding size memcmp
equal x y = (size x == size y) && is_nil (memcmp x y (size x))

unfoldable pub not_equal : Bytes → Bytes → Bool
unfolding equal
not_equal x y = not (equal x y)

compare_sizes : Bytes → Bytes → Sign
unfolding size
compare_sizes a b =
    if ltb (size a) (size b)
    then Sign.minus
    else if ltb (size b) (size a)
    then Sign.plus
    else Sign.nil

unfoldable pub compare : Bytes → Bytes → Sign
unfolding size memcmp compare_sizes
compare a b =
    let min_len = if ltb (size a) (size b) then size a else size b in
    let r = memcmp a b min_len in if is_nil r then compare_sizes a b else r

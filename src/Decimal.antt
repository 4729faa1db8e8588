-- ===== src/Decimal.antt =====
-- Decimal numbers as db/filename.cpp prints and reads them. `snprintf` is the C library's;
-- `ConsumeDecimalNumber` of util/logging.h is not in the repository and enters as a parameter.
pub mod Laws
pub mod Reader
use level_db.Prelude.{
  ℕ, zero, suc, ◌+◌, ◌-◌, ◌*◌, ◌/◌, ◌%◌, ◌^◌, ◌≤◌, ◌<◌, ◌≡◌, ◌≢◌, List, [], ◌∷◌, ◌++◌, Option, none,
  some, Bytes, length, replicate, take, All, ◌==◌, if◌then◌else◌, codes,
}

-- The digits of `n`, highest first and none for 0; twenty digits hold every number of 64 bits.
unfoldable pub digits : ℕ → ℕ → Bytes
digits zero n = []
digits (suc k) n =
    let front = digits k (n / 10) in if n == 0 then [] else front ++ (b'0' + n % 10) ∷ []

-- "%06llu", and "%0.6llu" too: a precision pads with zeros as well.
unfoldable pub print_padded : ℕ → Bytes
unfolding digits
print_padded n = let ds = digits 20 n in replicate (6 - length ds) b'0' ++ ds

-- What `snprintf` leaves of a text in a buffer of `n` bytes, the last one a zero.
unfoldable pub in_buffer : ℕ → Bytes → Bytes
in_buffer n s = take (n - 1) s

abbrev pub IsDigit : ℕ → Type 0
IsDigit c = (b'0' ≤ c) × (c ≤ b'9')

-- The number that digits spell behind `n`.
abbrev pub value : ℕ → Bytes → ℕ
value n [] = n
value n (c ∷ s) = value (n * 10 + (c - b'0')) s

abbrev pub IsNumeral : Bytes → ℕ → Type 0
IsNumeral ds n = (ds ≢ []) × All IsDigit ds × (value 0 ds ≡ n) × (n < 2 ^ 64)

-- A text that goes on with no digit.
abbrev pub Ends : Bytes → Type 0
Ends [] = Unit
Ends (c ∷ s) = ¬ IsDigit c

-- `ConsumeDecimalNumber(Slice* in, uint64_t* val)`: it reads the digits at the front of `in` as one
-- number of 64 bits, and fails where there is none.
pub record NumberReader : Type 0 where
  pub consume : Bytes → Option (ℕ × Bytes)
  pub complete :
      (ds rest : Bytes) (n : ℕ) → IsNumeral ds n → Ends rest → consume (ds ++ rest) ≡ some (n, rest)
  pub sound :
      (s rest : Bytes) (n : ℕ)
      → consume s ≡ some (n, rest)
      → (ds : Bytes) × (s ≡ ds ++ rest) × IsNumeral ds n

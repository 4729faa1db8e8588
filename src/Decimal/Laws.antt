-- ===== src/Decimal/Laws.antt =====
-- The numerals that `print_padded` prints.
use level_db.Prelude.{
  ℕ, zero, suc, ◌+◌, ◌-◌, ◌*◌, ◌/◌, ◌%◌, ◌^◌, ◌≤◌, ◌<◌, ◌≡◌, refl, ap, ◌∙◌, List, [], ◌∷◌, ◌++◌,
  Bytes, length, replicate, take, All, arith, length-append, length-replicate, All-append,
}
use native.Mathlib.Nat.{pow-suc}
use level_db.Decimal.{digits, print_padded, in_buffer, IsDigit, value, IsNumeral}

value-append : (n : ℕ) (xs ys : Bytes) → value n (xs ++ ys) ≡ value (value n xs) ys
value-append n [] ys = refl
value-append n (x ∷ xs) ys = value-append (n * 10 + (x - b'0')) xs ys

value-zeros : (k : ℕ) (xs : Bytes) → value 0 (replicate k b'0' ++ xs) ≡ value 0 xs
value-zeros zero xs = refl
value-zeros (suc k) xs = value-zeros k xs

digits-value : (k n : ℕ) → n < 10 ^ k → value 0 (digits k n) ≡ n
unfolding digits
digits-value zero n h = omega arith
digits-value (suc k) n h = ground (
  arith,
  pow-suc 10 k,
  digits-value k (n / 10),
  value-append 0 (digits k (n / 10)) ((b'0' + n % 10) ∷ []),
)

digits-IsDigit : (k n : ℕ) → All IsDigit (digits k n)
unfolding digits
digits-IsDigit zero n = tt
digits-IsDigit (suc k) n = ground (
  arith,
  All-append IsDigit (digits k (n / 10)) ((b'0' + n % 10) ∷ []) (digits-IsDigit k (n / 10))
      (omega arith),
)

zeros-IsDigit : (k : ℕ) → All IsDigit (replicate k b'0')
zeros-IsDigit zero = tt
zeros-IsDigit (suc k) = (omega arith, zeros-IsDigit k)

length-digits : (k n : ℕ) → length (digits k n) ≤ k
unfolding digits
length-digits zero n = omega arith
length-digits (suc k) n =
    ground
      (arith, length-digits k (n / 10), length-append (digits k (n / 10)) ((b'0' + n % 10) ∷ []))

pub length-print_padded : (n : ℕ) → (6 ≤ length (print_padded n)) × (length (print_padded n) ≤ 20)
unfolding print_padded
length-print_padded n = omega (
  arith,
  length-digits 20 n,
  length-append (replicate (6 - length (digits 20 n)) b'0') (digits 20 n),
  length-replicate {A = ℕ} (6 - length (digits 20 n)) b'0',
)

pub print_padded-IsNumeral : (n : ℕ) → n < 2 ^ 64 → IsNumeral (print_padded n) n
unfolding print_padded
print_padded-IsNumeral n h = (
  (λ e. absurd (omega (arith, length-print_padded n, ap length e))),
  All-append IsDigit (replicate (6 - length (digits 20 n)) b'0') (digits 20 n)
      (zeros-IsDigit (6 - length (digits 20 n))) (digits-IsDigit 20 n),
  value-zeros (6 - length (digits 20 n)) (digits 20 n) ∙ digits-value 20 n (omega arith),
  h,
)

take_short {ℓ} : {A : Type ℓ} (n : ℕ) (xs : List A) → length xs ≤ n → take n xs ≡ xs
take_short zero [] h = refl
take_short zero (x ∷ xs) h = absurd (omega arith)
take_short (suc n) [] h = refl
take_short (suc n) (x ∷ xs) h = ap (λ t. x ∷ t) (take_short n xs (omega arith))

-- A text with room for its terminator is not cut.
pub in_buffer_fits : (n : ℕ) (s : Bytes) → length s < n → in_buffer n s ≡ s
unfolding in_buffer
in_buffer_fits n s h = take_short (n - 1) s (omega arith)

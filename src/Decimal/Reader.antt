-- ===== src/Decimal/Reader.antt =====
-- A number reader, which shows that the interface can be met: it reads the longest run of digits.
use level_db.Prelude.{
  ℕ, ◌^◌, ◌≡◌, refl, [], ◌∷◌, ◌++◌, Option, none, some, Bytes, All, Bool, ltb, leb, ◌&&◌,
  if◌then◌else◌, arith,
}
use level_db.Decimal.{IsDigit, value, IsNumeral, Ends, NumberReader}

is_digit : ℕ → Bool
is_digit c = leb b'0' c && leb c b'9'

-- The digits at the front of a text.
run_of : Bytes → Bytes
run_of [] = []
run_of (c ∷ s) = let more = run_of s in if is_digit c then c ∷ more else []

rest_of : Bytes → Bytes
rest_of [] = []
rest_of (c ∷ s) = let more = rest_of s in if is_digit c then more else c ∷ s

number_of : Bytes → Bytes → Option (ℕ × Bytes)
number_of [] rest = none
number_of (d ∷ ds) rest =
    if ltb (value 0 (d ∷ ds)) (2 ^ 64) then some (value 0 (d ∷ ds), rest) else none

unfoldable pub consume_run : Bytes → Option (ℕ × Bytes)
unfolding is_digit run_of rest_of number_of
consume_run s = number_of (run_of s) (rest_of s)

run_of-append : (ds rest : Bytes) → All IsDigit ds → Ends rest → run_of (ds ++ rest) ≡ ds
unfolding run_of is_digit
run_of-append [] [] h k = refl
run_of-append [] (c ∷ rest) h k = ground arith
run_of-append (d ∷ ds) rest h k = ground (arith, run_of-append ds rest h.1 k)

rest_of-append : (ds rest : Bytes) → All IsDigit ds → Ends rest → rest_of (ds ++ rest) ≡ rest
unfolding rest_of is_digit
rest_of-append [] [] h k = refl
rest_of-append [] (c ∷ rest) h k = ground arith
rest_of-append (d ∷ ds) rest h k = ground (arith, rest_of-append ds rest h.1 k)

split_run : (s : Bytes) → s ≡ run_of s ++ rest_of s
unfolding run_of rest_of
split_run [] = refl
split_run (c ∷ s) = ground (arith, split_run s)

run_of-IsDigit : (s : Bytes) → All IsDigit (run_of s)
unfolding run_of is_digit
run_of-IsDigit [] = tt
run_of-IsDigit (c ∷ s) = ground (arith, run_of-IsDigit s)

number_of_complete : (ds rest : Bytes) (n : ℕ) → IsNumeral ds n → number_of ds rest ≡ some (n, rest)
unfolding number_of
number_of_complete [] rest n h = absurd (h.0 refl)
number_of_complete (d ∷ ds) rest n h = ground arith

pub consume_complete :
    (ds rest : Bytes) (n : ℕ)
    → IsNumeral ds n
    → Ends rest
    → consume_run (ds ++ rest) ≡ some (n, rest)
unfolding consume_run
consume_complete ds rest n h k =
    rw (run_of-append ds rest h.1 k, rest_of-append ds rest h.1 k) (number_of_complete ds rest n h)

number_of_sound :
    (ds rest more : Bytes) (n : ℕ)
    → All IsDigit ds
    → number_of ds more ≡ some (n, rest)
    → IsNumeral ds n × (more ≡ rest)
unfolding number_of
number_of_sound [] rest more n h e = absurd (cc)
number_of_sound (d ∷ ds) rest more n h e =
    (((λ q. cc), h, ground arith, ground arith), ground arith)

pub consume_sound :
    (s rest : Bytes) (n : ℕ)
    → consume_run s ≡ some (n, rest)
    → (ds : Bytes) × (s ≡ ds ++ rest) × IsNumeral ds n
unfolding consume_run
consume_sound s rest n h =
    let (numeral, same) = number_of_sound (run_of s) rest (rest_of s) n (run_of-IsDigit s) h in
    (run_of s, rw (← same) (split_run s), numeral)

abbrev pub run_reader : NumberReader
unfolding consume_run
run_reader = record { consume = consume_run; complete = consume_complete; sound = consume_sound }

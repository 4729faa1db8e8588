-- ===== src/Coding/Sample.antt =====
-- Codecs that meet the interface `Coding`: little-endian words, and a length in four bytes before a
-- slice. They stand in for util/coding.h in the tests.
use level_db.Prelude.{
  ℕ, zero, suc, ◌+◌, ◌*◌, ◌/◌, ◌%◌, ◌^◌, ◌<◌, ◌≡◌, refl, ap, [], ◌∷◌, ◌++◌, Option, none, some,
  Bytes, length, take, drop, leb, if◌then◌else◌, arith, length-append, length-drop, append_assoc,
  take-append_length, drop-append_length,
}
use native.Mathlib.Nat.{pow-suc, pow-le-pow_right}
use level_db.Coding.{Coding}

-- `k` bytes, the lowest first.
fixed : ℕ → ℕ → Bytes
fixed zero n = []
fixed (suc k) n = (n % 256) ∷ fixed k (n / 256)

decode : ℕ → Bytes → ℕ
decode zero s = 0
decode (suc k) [] = 0
decode (suc k) (c ∷ s) = c % 256 + 256 * decode k s

length-fixed : (k n : ℕ) → length (fixed k n) ≡ k
unfolding fixed
length-fixed zero n = refl
length-fixed (suc k) n = ap suc (length-fixed k (n / 256))

decode-fixed : (k n : ℕ) (rest : Bytes) → n < 256 ^ k → decode k (fixed k n ++ rest) ≡ n
unfolding fixed decode
decode-fixed zero n rest h = omega arith
decode-fixed (suc k) n rest h =
    omega (arith, pow-suc 256 k, decode-fixed k (n / 256) rest (omega (arith, pow-suc 256 k)))

decode_bound : (k : ℕ) (s : Bytes) → decode k s < 256 ^ k
unfolding decode
decode_bound zero s = omega arith
decode_bound (suc k) [] = pow-le-pow_right (omega arith) {i = 0} {j = suc k} (omega arith)
decode_bound (suc k) (c ∷ s) = omega (arith, pow-suc 256 k, decode_bound k s)

prefixed : Bytes → Bytes
prefixed key = fixed 4 (length key) ++ key

take_exact : ℕ → Bytes → Option (Bytes × Bytes)
take_exact n s = if leb n (length s) then some (take n s, drop n s) else none

get_prefixed : Bytes → Option (Bytes × Bytes)
get_prefixed s = if leb 4 (length s) then take_exact (decode 4 s) (drop 4 s) else none

take_exact-append : (key rest : Bytes) → take_exact (length key) (key ++ rest) ≡ some (key, rest)
unfolding take_exact
take_exact-append key rest =
    ground (arith, length-append key rest, take-append_length key rest, drop-append_length key rest)

drop-fixed : (n : ℕ) (rest : Bytes) → drop 4 (fixed 4 n ++ rest) ≡ rest
unfolding fixed
drop-fixed n rest = refl

get_prefixed_lem :
    (key rest : Bytes)
    → length key < 2 ^ 32
    → get_prefixed (prefixed key ++ rest) ≡ some (key, rest)
unfolding get_prefixed prefixed
get_prefixed_lem key rest h =
    rw
      (
        append_assoc (fixed 4 (length key)) key rest,
        decode-fixed 4 (length key) (key ++ rest) (omega arith),
        drop-fixed (length key) (key ++ rest),
      )
      (ground (
        arith,
        length-append (fixed 4 (length key)) (key ++ rest),
        length-fixed 4 (length key),
        take_exact-append key rest,
      ))

get_prefixed_shrinks :
    (s key rest : Bytes) → get_prefixed s ≡ some (key, rest) → length rest < length s
unfolding get_prefixed take_exact
get_prefixed_shrinks s key rest h =
    ground (arith, length-drop (decode 4 s) (drop 4 s), length-drop 4 s)

pub little_endian : Coding
unfolding fixed
little_endian = record {
  fixed_32 = fixed 4;
  fixed_64 = fixed 8;
  decode_fixed_32 = decode 4;
  decode_fixed_64 = decode 8;
  length_32 = length-fixed 4;
  length_64 = length-fixed 8;
  decode_32 = λ n rest h. decode-fixed 4 n rest (omega arith);
  decode_64 = λ n rest h. decode-fixed 8 n rest (omega arith);
  zero_32 = refl;
  zero_64 = refl;
  decode_32_bound = λ s. omega (arith, decode_bound 4 s);
  prefixed = prefixed;
  get_prefixed = get_prefixed;
  get_prefixed_lem = get_prefixed_lem;
  get_prefixed_shrinks = get_prefixed_shrinks;
  type_value = 1;
  type_deletion = 0;
  types_differ = λ e. absurd (omega arith);
}

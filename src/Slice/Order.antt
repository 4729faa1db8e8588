-- ===== src/Slice/Order.antt =====
-- The order of slices: `compare` and the lexicographic order of byte strings.
use level_db.Prelude.{
  ℕ, ◌<◌, ◌≡◌, refl, ◌↔◌, [], ◌∷◌, Bytes, ltb, if◌then◌else◌, arith, Bool-cases, inl, inr,
}
use level_db.Slice.{Sign, compare}

-- The dictionary order, byte by byte.
lex : Bytes → Bytes → Sign
lex [] [] = Sign.nil
lex [] (y ∷ b) = Sign.minus
lex (x ∷ a) [] = Sign.plus
lex (x ∷ a) (y ∷ b) =
    let rest = lex a b in if ltb x y then Sign.minus else if ltb y x then Sign.plus else rest

compare_step :
    (x y : ℕ) (a b : Bytes)
    → compare (x ∷ a) (y ∷ b)
      ≡ (if ltb x y then Sign.minus else if ltb y x then Sign.plus else compare a b)
unfolding compare
compare_step x y a b = ground arith

compare-lex : (a b : Bytes) → compare a b ≡ lex a b
unfolding lex
compare-lex [] [] = unfold compare in refl
compare-lex [] (y ∷ b) = unfold compare in (ground arith)
compare-lex (x ∷ a) [] = unfold compare in (ground arith)
compare-lex (x ∷ a) (y ∷ b) = ground (arith, compare_step x y a b, compare-lex a b)

-- `a` comes before `b`: it is a proper prefix, or has the smaller byte where they first differ.
pub data Before : Bytes → Bytes → Type 0 where
  shorter : {y : ℕ} {b : Bytes} → Before [] (y ∷ b)
  smaller : {x y : ℕ} {a b : Bytes} → x < y → Before (x ∷ a) (y ∷ b)
  later : {x y : ℕ} {a b : Bytes} → x ≡ y → Before a b → Before (x ∷ a) (y ∷ b)

lex-of-Before : {a b : Bytes} → Before a b → lex a b ≡ Sign.minus
unfolding lex
lex-of-Before shorter = refl
lex-of-Before (smaller h) = ground arith
lex-of-Before (later e r) = ground (arith, lex-of-Before r)

Before-of-lex : (a b : Bytes) → lex a b ≡ Sign.minus → Before a b
unfolding lex
Before-of-lex [] [] h = absurd (cc)
Before-of-lex [] (y ∷ b) h = shorter
Before-of-lex (x ∷ a) [] h = absurd (cc)
Before-of-lex (x ∷ a) (y ∷ b) h = elim (Bool-cases (ltb x y)) [
  | inl less ↦ smaller (ground arith)
  | inr more ↦ later (ground arith) (Before-of-lex a b (ground arith))
]

lex-nil : (a b : Bytes) → lex a b ≡ Sign.nil → a ≡ b
unfolding lex
lex-nil [] [] h = refl
lex-nil [] (y ∷ b) h = absurd (cc)
lex-nil (x ∷ a) [] h = absurd (cc)
lex-nil (x ∷ a) (y ∷ b) h = ground (arith, lex-nil a b)

lex_self : (a : Bytes) → lex a a ≡ Sign.nil
unfolding lex
lex_self [] = refl
lex_self (x ∷ a) = ground (arith, lex_self a)

pub opposite : Sign → Sign
opposite Sign.minus = Sign.plus
opposite Sign.nil = Sign.nil
opposite Sign.plus = Sign.minus

lex_swap : (a b : Bytes) → lex b a ≡ opposite (lex a b)
unfolding lex opposite
lex_swap [] [] = refl
lex_swap [] (y ∷ b) = refl
lex_swap (x ∷ a) [] = refl
lex_swap (x ∷ a) (y ∷ b) = ground (arith, lex_swap a b)

lex_trans : (a b c : Bytes) → lex a b ≡ Sign.minus → lex b c ≡ Sign.minus → lex a c ≡ Sign.minus
unfolding lex
lex_trans [] [] c h k = absurd (cc)
lex_trans [] (y ∷ b) [] h k = absurd (cc)
lex_trans [] (y ∷ b) (z ∷ c) h k = refl
lex_trans (x ∷ a) [] c h k = absurd (cc)
lex_trans (x ∷ a) (y ∷ b) [] h k = absurd (cc)
lex_trans (x ∷ a) (y ∷ b) (z ∷ c) h k = ground (arith, lex_trans a b c)

-- `compare` answers a negative number exactly when the first slice comes before the second one in
-- the dictionary order, zero exactly when they are equal, and a positive number exactly when the
-- second one comes before the first.
pub compare_iff :
    (a b : Bytes)
    → ((compare a b ≡ Sign.minus) ↔ Before a b)
      × ((compare a b ≡ Sign.nil) ↔ (a ≡ b))
      × ((compare a b ≡ Sign.plus) ↔ Before b a)
unfolding opposite
compare_iff a b = rw compare-lex (
  (Before-of-lex a b, lex-of-Before),
  (lex-nil a b, λ e. rw e (lex_self b)),
  (
    (λ h. Before-of-lex b a (rw (lex_swap a b, h, opposite))),
    (λ r. rw (lex_swap b a, lex-of-Before r, opposite)),
  ),
)

-- The order is transitive, and swapping the arguments of `compare` swaps its sign: a slice before a
-- second one that is before a third is before the third, and the third comes after the first.
pub compare_trans :
    (a b c : Bytes)
    → compare a b ≡ Sign.minus
    → compare b c ≡ Sign.minus
    → (compare a c ≡ Sign.minus) × (compare c a ≡ Sign.plus)
unfolding opposite
compare_trans a b c h k =
    let less : lex a c ≡ Sign.minus =
      lex_trans a b c (rw (compare-lex a b) at h) (rw (compare-lex b c) at k) in
    (rw (compare-lex a c) less, rw (compare-lex c a, lex_swap a c, less))

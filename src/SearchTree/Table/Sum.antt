-- ===== src/SearchTree/Table/Sum.antt =====
-- What `OptionalBSTDP` computes, with the table that it has and with the one that is meant.
use level_db.Prelude.{
  ℕ, zero, suc, ◌+◌, ◌-◌, ◌^◌, ◌≤◌, ◌<◌, ◌≡◌, refl, ap, ◌∙◌, true, false, List, [], ◌∷◌, Option,
  some, length, get_elem?, replicate, leb, ◌>>=◌, Bool-cases, inl, inr, min, arith,
}
use level_db.SearchTree.Weighted.{checked}
use level_db.SearchTree.Weighted.Cost.{weight_at, get_elem?-weight_at}
use level_db.SearchTree.Table.{least_cost, entry, min_cost, optional_bst_dp}

-- The weights of `k` positions from `left` on.
abbrev pub sum_from : List ℕ → ℕ → ℕ → ℕ
sum_from ws left zero = 0
sum_from ws left (suc k) = weight_at ws left + sum_from ws (left + 1) k

-- No result is known.
abbrev pub unknown : ℕ → List (List ℕ)
unknown n = replicate n (replicate n (2 ^ 32 - 1))

get_elem?-replicate : {A : Type 0} (n i : ℕ) (a : A) → i < n → get_elem? (replicate n a) i ≡ some a
get_elem?-replicate zero i a h = absurd (omega arith)
get_elem?-replicate (suc n) zero a h = refl
get_elem?-replicate (suc n) (suc i) a h = get_elem?-replicate n i a (omega arith)

entry-replicate :
    (ws : List ℕ) (n i j a : ℕ)
    → i < n
    → j < n
    → entry ws (replicate n (replicate n a)) i j ≡ some a
unfolding entry
entry-replicate ws n i j a h k =
    rw (get_elem?-replicate n i (replicate n a) h) (get_elem?-replicate n j a k)

sum_from_cong :
    (ws : List ℕ) (l l' a a' : ℕ) → l ≡ l' → a ≡ a' → sum_from ws l a ≡ sum_from ws l' a'
sum_from_cong ws l l' a a' h k = cc

sum_from-append :
    (ws : List ℕ) (left a b : ℕ)
    → sum_from ws left (a + b) ≡ sum_from ws left a + sum_from ws (left + a) b
sum_from-append ws left zero b =
    sum_from_cong ws left (left + 0) (0 + b) b (omega arith) (omega arith) ∙ omega arith
sum_from-append ws left (suc a) b =
    sum_from_cong ws left left (suc a + b) (suc (a + b)) refl (omega arith)
    ∙ omega (
      arith,
      sum_from-append ws (left + 1) a b,
      sum_from_cong ws (left + 1 + a) (left + suc a) b b (omega arith) refl,
    )

-- The weights around one of the positions.
sum_around :
    (ws : List ℕ) (left j stop : ℕ)
    → left ≤ j
    → j < stop
    → sum_from ws left (stop - left)
      ≡ sum_from ws left (j - left) + (weight_at ws j + sum_from ws (j + 1) (stop - (j + 1)))
sum_around ws left j stop h k =
    sum_from_cong ws left left (stop - left) (j - left + suc (stop - (j + 1))) refl (omega arith)
    ∙ omega (
      arith,
      sum_from-append ws left (j - left) (suc (stop - (j + 1))),
      sum_from_cong ws (left + (j - left)) j (suc (stop - (j + 1))) (suc (stop - (j + 1)))
          (omega arith) refl,
    )

-- All costs are the same.
least_cost_fixed :
    (f : ℕ → Option ℕ) (c k i : ℕ)
    → ((j : ℕ) → i ≤ j → j < i + k → f j ≡ some c)
    → least_cost f k i c ≡ some c
unfolding least_cost
least_cost_fixed f c zero i h = refl
least_cost_fixed f c (suc k) i h =
    let same : min c c ≡ c = omega arith in
    rw (h i (omega arith) (omega arith), same)
      (least_cost_fixed f c k (i + 1) (λ j a b. h j (omega arith) (omega arith)))

least_cost_same :
    (f : ℕ → Option ℕ) (c k i acc : ℕ)
    → ((j : ℕ) → i ≤ j → j < i + k → f j ≡ some c)
    → c ≤ acc
    → 0 < k
    → least_cost f k i acc ≡ some c
unfolding least_cost
least_cost_same f c zero i acc h a b = absurd (omega arith)
least_cost_same f c (suc k) i acc h a b =
    let less : min acc c ≡ c = omega arith in
    rw (h i (omega arith) (omega arith), less)
      (least_cost_fixed f c k (i + 1) (λ j d e. h j (omega arith) (omega arith)))

-- `OptionalBSTDP` answers 0 for all weights.
optional_bst_dp-zero : (ws : List ℕ) → optional_bst_dp ws ≡ some 0
unfolding optional_bst_dp min_cost
optional_bst_dp-zero [] = refl
optional_bst_dp-zero (w ∷ ws) =
    let n = length (w ∷ ws) in
    let positive : leb n 0 ≡ false = ground arith in
    rw (positive, entry-replicate (w ∷ ws) n 0 (n - 1) 0 (omega arith) (omega arith)) refl

-- The cost of a root, from the costs of its subtrees.
root_cost :
    (ws : List ℕ) (left j stop : ℕ) (f g : Option ℕ)
    → left ≤ j
    → j < stop
    → stop ≤ length ws
    → sum_from ws left (stop - left) < 2 ^ 31
    → f ≡ some (sum_from ws left (j - left))
    → g ≡ some (sum_from ws (j + 1) (stop - (j + 1)))
    → (get_elem? ws j >>= λ w. f >>= λ x. g >>= λ y. checked (w + x + y))
      ≡ some (sum_from ws left (stop - left))
root_cost ws left j stop f g lo hi b d hf hg =
    rw (get_elem?-weight_at ws j (omega arith), hf, hg)
      (ground (arith, sum_around ws left j stop lo hi, d))

-- With a table of unknown results, as the call of `std::find` is meant to leave it, the recursion
-- computes the sum of the weights in the range where it fits an `int`: a root adds its weight
-- once, whatever its depth, and all trees cost the same.
pub min_cost_lem :
    (ws : List ℕ) (k left stop : ℕ)
    → left ≤ stop
    → stop ≤ length ws
    → stop - left ≤ k
    → sum_from ws left (stop - left) < 2 ^ 31
    → min_cost ws (unknown (length ws)) k left stop ≡ some (sum_from ws left (stop - left))
unfolding min_cost
min_cost_lem ws zero left stop a b c d =
    let over : leb stop left ≡ true = ground arith in
    rw over (ap some (sum_from_cong ws left left 0 (stop - left) refl (omega arith)))
min_cost_lem ws (suc k) left stop a b c d = elim (Bool-cases (leb stop left)) [
  | inl e ↦ rw e (ap some (sum_from_cong ws left left 0 (stop - left) refl (ground (arith, e))))
  | inr e ↦
      let inside : left < stop = ground (arith, e) in
      rw
        (e, entry-replicate ws (length ws) left (stop - 1) (2 ^ 32 - 1) (omega arith) (omega arith))
        (least_cost_same _ (sum_from ws left (stop - left)) (stop - left) left (2 ^ 31 - 1)
          (λ j lo hi.
            let total = sum_around ws left j stop lo (omega arith) in
            root_cost ws left j stop _ _ lo (omega arith) b d
              (min_cost_lem ws k left j lo (omega arith) (omega arith) (omega (arith, total, d)))
              (min_cost_lem ws k (j + 1) stop (omega arith) b (omega arith)
                (omega (arith, total, d))))
          (omega arith) (omega arith))
]

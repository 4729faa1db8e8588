-- ===== src/SearchTree/Weighted.antt =====
-- `OptionalBST` of main.cpp: the cost of the search tree that has the least element at its root,
-- and the same for its subtrees. The elements are a parameter with their `<`; a weight is an `int`
-- that is not negative. `none` is a result that overflows an `int`, or a weight that is missing. A
-- range is given by its first position and the one behind its last.
pub mod Plan
pub mod Cost
use level_db.Prelude.{
  ℕ, zero, suc, ◌+◌, ◌-◌, ◌*◌, ◌^◌, Bool, true, false, List, Option, none, some, length, get_elem?,
  ltb, leb, if◌then◌else◌, ◌>>=◌,
}

-- An `int` that is not negative; the overflow of one is undefined.
abbrev pub checked : ℕ → Option ℕ
checked n = if ltb n (2 ^ 31) then some n else none

module _ {D : Type 0} (less : D → D → Bool) (xs : List D) where
  unfoldable pub less_found : Option D → Option D → Bool
  less_found none y = false
  less_found (some x) none = false
  less_found (some x) (some y) = less x y

  unfoldable pub less_at : ℕ → ℕ → Bool
  unfolding less_found
  less_at i j = less_found (get_elem? xs i) (get_elem? xs j)

  -- `std::min_element`: the first of the least elements, by the loop over `k` positions from `i`
  -- on.
  unfoldable pub min_from : ℕ → ℕ → ℕ → ℕ
  min_from zero i best = best
  min_from (suc k) i best = min_from k (i + 1) (if less_at i best then i else best)

  unfoldable pub min_index : ℕ → ℕ → ℕ
  unfolding min_from
  min_index left stop = min_from (stop - left - 1) (left + 1) left

  module _ (weights : List ℕ) where
    -- The recursion with its `*result`, on fuel.
    unfoldable pub add_costs : ℕ → ℕ → ℕ → ℕ → ℕ → Option ℕ
    add_costs zero left stop level result = if leb stop left then some result else none
    add_costs (suc k) left stop level result =
        let m = min_index left stop in
        let costs = get_elem? weights m >>= λ w. checked (result + level * w) >>= λ r.
        add_costs k left m (level + 1) r >>= add_costs k (m + 1) stop (level + 1) in
        if leb stop left then some result else costs

    -- A round of the recursion takes an element out of the range.
    unfoldable pub optional_bst : Option ℕ
    unfolding add_costs
    optional_bst = add_costs (length xs) 0 (length xs) 1 0

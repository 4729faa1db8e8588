-- ===== src/SearchTree/Table.antt =====
-- `OptionalBSTDP` of main.cpp: the least cost over all roots, with a table of results. An entry of
-- the table is the pattern of an `int`; weights are not negative, and `none` is as in Weighted.
-- The table is read and never written. The parameters `data` and `level` are not used.
pub mod Sum
use level_db.Prelude.{
  ℕ, zero, suc, ◌+◌, ◌-◌, ◌^◌, not, List, Option, none, some, length, get_elem?, replicate, leb,
  ◌==◌, if◌then◌else◌, ◌>>=◌, min,
}
use level_db.SearchTree.Weighted.{checked}

-- The loop over the `k` roots from `i` on, with `min_result`.
pub least_cost : (ℕ → Option ℕ) → ℕ → ℕ → ℕ → Option ℕ
least_cost f zero i min_result = some min_result
least_cost f (suc k) i min_result = f i >>= λ cost. least_cost f k (i + 1) (min min_result cost)

module _ (weights : List ℕ) (table : List (List ℕ)) where
  pub entry : ℕ → ℕ → Option ℕ
  entry left right = get_elem? table left >>= λ row. get_elem? row right

  -- The recursion on fuel; an entry of -1 is one that is not known.
  pub min_cost : ℕ → ℕ → ℕ → Option ℕ
  unfolding least_cost entry
  min_cost zero left stop = if leb stop left then some 0 else none
  min_cost (suc k) left stop =
      let costs =
        least_cost
          (λ i. get_elem? weights i >>= λ w.
            min_cost k left i >>= λ a. min_cost k (i + 1) stop >>= λ b. checked (w + a + b))
          (stop - left) left (2 ^ 31 - 1) in
      if leb stop left
      then some 0
      else entry left (stop - 1) >>= λ e. if not (e == 2 ^ 32 - 1) then some e else costs

-- The outer function; `std::find` leaves the table as it is, filled with 0.
pub optional_bst_dp : List ℕ → Option ℕ
unfolding min_cost
optional_bst_dp weights =
    let n = length weights in min_cost weights (replicate n (replicate n 0)) n 0 n

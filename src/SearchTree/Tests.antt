-- ===== src/SearchTree/Tests.antt =====
-- The theorems on search trees at trees of numbers.
use level_db.Prelude.{some, ℕ, ◌≡◌, refl, Bool, not, [], ◌∷◌, ltb, arith, ◌==◌}
use level_db.SearchTree.{Tree, insert_all, inorder}
use level_db.SearchTree.Weighted.{checked, optional_bst, min_index, less_at}
use level_db.SearchTree.Weighted.Plan.{range, IsLeast}
use level_db.SearchTree.Weighted.Cost.{cost, optional_bst_lem}
use level_db.SearchTree.Order.{IsSorted, inorder-insert_all-IsSorted}

abbrev not_zero : ℕ → Bool
not_zero n = not (n == 0)

-- A zero that is not the least element is dropped.
zero_dropped :
    inorder (insert_all ltb not_zero (Tree.node 0 Tree.null Tree.null) (5 ∷ 0 ∷ [])) ≡ 0 ∷ 5 ∷ []
unfolding inorder insert_all
zero_dropped = refl

abbrev five : Tree ℕ
five = Tree.node 5 Tree.null Tree.null

inorder-insert_all-IsSorted_example :
    IsSorted ltb (inorder (insert_all ltb not_zero Tree.null (5 ∷ 2 ∷ 9 ∷ 2 ∷ [])))
inorder-insert_all-IsSorted_example =
    inorder-insert_all-IsSorted ltb (λ a. ground arith) (λ a b c h k. ground arith) not_zero
      (5 ∷ 2 ∷ 9 ∷ 2 ∷ [])

optional_bst_lem_example :
    (t : Tree ℕ) × (inorder t ≡ range 0 3)
    × IsLeast ltb (2 ∷ 1 ∷ 3 ∷ []) t
    × (optional_bst ltb (2 ∷ 1 ∷ 3 ∷ []) (4 ∷ 5 ∷ 6 ∷ []) ≡ checked (cost (4 ∷ 5 ∷ 6 ∷ []) 1 t))
optional_bst_lem_example =
    optional_bst_lem ltb (2 ∷ 1 ∷ 3 ∷ []) (4 ∷ 5 ∷ 6 ∷ []) (λ a. ground arith)
      (λ a b c h k. ground arith) (omega arith)

-- The tree of data in ascending order is a chain, although another tree costs less.
chain_cost : optional_bst ltb (1 ∷ 2 ∷ 3 ∷ []) (1 ∷ 1 ∷ 1 ∷ []) ≡ some 6
unfolding optional_bst min_index less_at
chain_cost = refl

balanced_cost :
    cost
      (1 ∷ 1 ∷ 1 ∷ [])
      1
      (Tree.node 1 (Tree.node 0 Tree.null Tree.null) (Tree.node 2 Tree.null Tree.null))
    ≡ 5
balanced_cost = refl

-- One element of weight 20 costs 20, at level 1, whatever the element is.
one_element : optional_bst ltb (10 ∷ []) (20 ∷ []) ≡ some 20
unfolding optional_bst min_index less_at
one_element = refl

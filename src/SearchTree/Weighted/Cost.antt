-- ===== src/SearchTree/Weighted/Cost.antt =====
-- The tree whose cost `OptionalBST` computes.
use level_db.Prelude.{
  ℕ, zero, suc, ◌+◌, ◌-◌, ◌*◌, ◌^◌, ◌≤◌, ◌<◌, ◌≡◌, refl, ap, ◌∙◌, Bool, true, false, List, [], ◌∷◌,
  Option, some, length, get_elem?, ltb, leb, ◌>>=◌, Bool-cases, inl, inr, arith,
}
use level_db.SearchTree.{Tree, inorder}
use level_db.SearchTree.Weighted.Plan.{
  range, range_cong, IsLeast, plan, min_index_between, inorder-plan, plan-IsLeast,
}
use level_db.SearchTree.Weighted.{checked, min_index, add_costs, optional_bst}

abbrev pub weight_at : List ℕ → ℕ → ℕ
weight_at [] i = 0
weight_at (w ∷ ws) zero = w
weight_at (w ∷ ws) (suc i) = weight_at ws i

pub get_elem?-weight_at :
    (ws : List ℕ) (i : ℕ) → i < length ws → get_elem? ws i ≡ some (weight_at ws i)
get_elem?-weight_at [] i h = absurd (omega arith)
get_elem?-weight_at (w ∷ ws) zero h = refl
get_elem?-weight_at (w ∷ ws) (suc i) h = get_elem?-weight_at ws i (omega arith)

-- The weights, each times the depth of its position.
abbrev pub cost : List ℕ → ℕ → Tree ℕ → ℕ
cost ws level Tree.null = 0
cost ws level (Tree.node m a b) =
    level * weight_at ws m + (cost ws (level + 1) a + cost ws (level + 1) b)

-- Costs added in a row overflow exactly if their sum does.
chain :
    (a c d : ℕ) (f g : ℕ → Option ℕ)
    → ((r : ℕ) → r < 2 ^ 31 → f r ≡ checked (r + c))
    → ((r : ℕ) → r < 2 ^ 31 → g r ≡ checked (r + d))
    → (checked a >>= λ r. f r >>= g) ≡ checked (a + (c + d))
chain a c d f g hf hg = elim (Bool-cases (ltb a (2 ^ 31))) [
  | inr e ↦ rw e (ground (arith, e))
  | inl e ↦ elim (Bool-cases (ltb (a + c) (2 ^ 31))) [
    | inr k ↦ rw (e, hf a (ground (arith, e)), k) (ground (arith, k))
    | inl k ↦
        rw (e, hf a (ground (arith, e)), k)
          (hg (a + c) (ground (arith, k)) ∙ ap checked (omega arith))
  ]
]

module _ {D : Type 0} (less : D → D → Bool) (xs : List D) (ws : List ℕ) where
  add_costs_lem :
      (k left stop level result : ℕ)
      → left ≤ stop
      → stop - left ≤ k
      → stop ≤ length ws
      → result < 2 ^ 31
      → add_costs less xs ws k left stop level result
        ≡ checked (result + cost ws level (plan less xs k left stop))
  unfolding add_costs plan
  add_costs_lem zero left stop level result h e f g =
      let over : leb stop left ≡ true = ground arith in rw over (ground arith)
  add_costs_lem (suc k) left stop level result h e f g =
      let m = min_index less xs left stop in
      elim (Bool-cases (leb stop left)) [
        | inl c ↦ rw c (ground arith)
        | inr c ↦
            let (lo, hi) = min_index_between less xs left stop (ground (arith, c)) in
            rw (c, get_elem?-weight_at ws m (omega arith))
              (chain (result + level * weight_at ws m) (cost ws (level + 1) (plan less xs k left m))
                  (cost ws (level + 1) (plan less xs k (m + 1) stop))
                  (add_costs less xs ws k left m (level + 1))
                  (add_costs less xs ws k (m + 1) stop (level + 1))
                  (λ r s. add_costs_lem k left m (level + 1) r lo (omega arith) (omega arith) s)
                  (λ r s.
                    add_costs_lem k (m + 1) stop (level + 1) r (omega arith) (omega arith) f s)
                ∙ ap checked (omega arith))
      ]

  -- With a comparison that is irreflexive and transitive, and a weight for every element,
  -- `OptionalBST` computes the sum of the weights, each times the depth of its position from 1 on,
  -- of a tree that has all the positions in their order, and at each root an element that no other
  -- one below it is less than; it has no result exactly if the sum does not fit an `int`.
  pub optional_bst_lem :
      ((a : D) → less a a ≡ false)
      → ((a b c : D) → less a b ≡ true → less b c ≡ true → less a c ≡ true)
      → length xs ≤ length ws
      → (t : Tree ℕ) × (inorder t ≡ range 0 (length xs))
        × IsLeast less xs t
        × (optional_bst less xs ws ≡ checked (cost ws 1 t))
  unfolding optional_bst
  optional_bst_lem irreflexive transitive enough =
      let n = length xs in
      (
        plan less xs n 0 n,
        inorder-plan less xs n 0 n (omega arith) (omega arith)
            ∙ range_cong 0 0 (n - 0) n refl (omega arith),
        plan-IsLeast less xs irreflexive transitive n 0 n (omega arith) (omega arith),
        add_costs_lem n 0 n 1 0 (omega arith) (omega arith) enough (omega arith)
            ∙ ap checked (omega arith),
      )

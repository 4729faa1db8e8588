-- ===== src/SearchTree/Weighted/Plan.antt =====
-- The tree that `OptionalBST` goes through: its positions, and what stands at its roots.
use level_db.Prelude.{
  ==_iff, subst, ℕ, zero, suc, ◌+◌, ◌-◌, ◌≤◌, ◌<◌, ◌≡◌, refl, sym, ap, ◌∙◌, Bool, true, false, List,
  [], ◌∷◌, ◌++◌, Option, none, some, get_elem?, All, leb, ◌==◌, if◌then◌else◌, Bool-cases, inl, inr,
  arith,
}
use level_db.SearchTree.{Tree, inorder}
use level_db.SearchTree.Weighted.{less_at, min_from, min_index, less_found}

abbrev pub range : ℕ → ℕ → List ℕ
range left zero = []
range left (suc k) = left ∷ range (left + 1) k

pub range_cong : (l l' a a' : ℕ) → l ≡ l' → a ≡ a' → range l a ≡ range l' a'
range_cong l l' a a' h k = cc

range-append : (left a b : ℕ) → range left (a + b) ≡ range left a ++ range (left + a) b
range-append left zero b = range_cong left (left + 0) (0 + b) b (omega arith) (omega arith)
range-append left (suc a) b =
    range_cong left left (suc a + b) (suc (a + b)) refl (omega arith)
    ∙ ap (λ t. left ∷ t)
        (range-append (left + 1) a b
          ∙ ap (λ t. range (left + 1) a ++ t)
              (range_cong (left + 1 + a) (left + suc a) b b (omega arith) refl))

All-range :
    (P : ℕ → Type 0) (left n : ℕ) → ((j : ℕ) → left ≤ j → j < left + n → P j) → All P (range left n)
All-range P left zero h = tt
All-range P left (suc n) h = (
  h left (omega arith) (omega arith),
  All-range P (left + 1) n (λ j a b. h j (omega arith) (omega arith)),
)

-- A range around one of its positions.
range_around :
    (left m stop : ℕ)
    → left ≤ m
    → m < stop
    → range left (m - left) ++ m ∷ range (m + 1) (stop - (m + 1)) ≡ range left (stop - left)
range_around left m stop h k =
    ap (λ t. range left (m - left) ++ t)
      (range_cong m (left + (m - left)) (suc (stop - (m + 1))) (suc (stop - (m + 1))) (omega arith)
        refl)
    ∙ sym (range-append left (m - left) (suc (stop - (m + 1))))
    ∙ range_cong left left (m - left + suc (stop - (m + 1))) (stop - left) refl (omega arith)

module _ {D : Type 0} (less : D → D → Bool) (xs : List D) where
  -- No element of a tree is less than its root.
  abbrev pub IsLeast : Tree ℕ → Type 0
  IsLeast Tree.null = Unit
  IsLeast (Tree.node m a b) =
      All (λ i. less_at less xs i m ≡ false) (inorder a ++ m ∷ inorder b) × IsLeast a × IsLeast b

  min_from_between :
      (k i best lo hi : ℕ)
      → lo ≤ best
      → best < hi
      → lo ≤ i
      → i + k ≤ hi
      → (lo ≤ min_from less xs k i best) × (min_from less xs k i best < hi)
  unfolding min_from
  min_from_between zero i best lo hi a b c d = (a, b)
  min_from_between (suc k) i best lo hi a b c d = elim (Bool-cases (less_at less xs i best)) [
    | inl e ↦ rw e (min_from_between k (i + 1) i lo hi c (omega arith) (omega arith) (omega arith))
    | inr e ↦ rw e (min_from_between k (i + 1) best lo hi a b (omega arith) (omega arith))
  ]

  -- The recursion of the source, with the tree in place of the cost.
  unfoldable pub plan : ℕ → ℕ → ℕ → Tree ℕ
  plan zero left stop = Tree.null
  plan (suc k) left stop =
      let m = min_index less xs left stop in
      let a = plan k left m in
      let b = plan k (m + 1) stop in if leb stop left then Tree.null else Tree.node m a b

  pub min_index_between :
      (left stop : ℕ)
      → left < stop
      → (left ≤ min_index less xs left stop) × (min_index less xs left stop < stop)
  unfolding min_index
  min_index_between left stop h =
      min_from_between (stop - left - 1) (left + 1) left left stop (omega arith) h (omega arith)
        (omega arith)

  pub inorder-plan :
      (k left stop : ℕ)
      → left ≤ stop
      → stop - left ≤ k
      → inorder (plan k left stop) ≡ range left (stop - left)
  unfolding plan inorder
  inorder-plan zero left stop h e = range_cong left left 0 (stop - left) refl (omega arith)
  inorder-plan (suc k) left stop h e =
      let m = min_index less xs left stop in
      elim (Bool-cases (leb stop left)) [
        | inl c ↦ rw c (range_cong left left 0 (stop - left) refl (ground (arith, c)))
        | inr c ↦
            let (lo, hi) = min_index_between left stop (ground (arith, c)) in
            rw
              (
                c,
                inorder-plan k left m lo (omega arith),
                inorder-plan k (m + 1) stop (omega arith) (omega arith),
              )
              (range_around left m stop lo hi)
      ]

  node-plan :
      (k left m stop : ℕ)
      → left ≤ m
      → m < stop
      → stop - left ≤ suc k
      → inorder (plan k left m) ++ m ∷ inorder (plan k (m + 1) stop) ≡ range left (stop - left)
  node-plan k left m stop lo hi e =
      rw
        (
          inorder-plan k left m lo (omega arith),
          inorder-plan k (m + 1) stop (omega arith) (omega arith),
        )
        (range_around left m stop lo hi)

  module _ (irreflexive : (a : D) → less a a ≡ false)
      (transitive : (a b c : D) → less a b ≡ true → less b c ≡ true → less a c ≡ true) where
    found_irreflexive : (a : Option D) → less_found less xs a a ≡ false
    unfolding less_found
    found_irreflexive none = refl
    found_irreflexive (some a) = irreflexive a

    found_transitive :
        (a b c : Option D)
        → less_found less xs a b ≡ true
        → less_found less xs b c ≡ true
        → less_found less xs a c ≡ true
    unfolding less_found
    found_transitive none b c h e = absurd (cc)
    found_transitive (some a) none c h e = absurd (cc)
    found_transitive (some a) (some b) none h e = absurd (cc)
    found_transitive (some a) (some b) (some c) h e = transitive a b c h e

    less_at_irreflexive : (i : ℕ) → less_at less xs i i ≡ false
    unfolding less_at
    less_at_irreflexive i = found_irreflexive (get_elem? xs i)

    -- What is not less than the best so far is not less than a better one.
    better :
        (i j best : ℕ)
        → less_at less xs i best ≡ true
        → less_at less xs j best ≡ false
        → less_at less xs j i ≡ false
    unfolding less_at
    better i j best h e = elim (Bool-cases (less_at less xs j i)) [
      | inr k ↦ k
      | inl k ↦
          absurd
            (cc (e, found_transitive (get_elem? xs j) (get_elem? xs i) (get_elem? xs best) k h))
    ]

    min_from_least :
        (k i best lo : ℕ)
        → ((j : ℕ) → lo ≤ j → j < i → less_at less xs j best ≡ false)
        → (j : ℕ) → lo ≤ j
        → j < i + k
        → less_at less xs j (min_from less xs k i best) ≡ false
    unfolding min_from
    min_from_least zero i best lo h j a b = h j a (omega arith)
    min_from_least (suc k) i best lo h j a b = elim (Bool-cases (less_at less xs i best)) [
      | inl e ↦
          rw e (min_from_least k (i + 1) i lo (λ j' a' b'. newer e j' a' b') j a (omega arith))
      | inr e ↦
          rw e (min_from_least k (i + 1) best lo (λ j' a' b'. older e j' a' b') j a (omega arith))
    ]
      where
        newer :
            less_at less xs i best ≡ true
            → (j' : ℕ) → lo ≤ j'
            → j' < i + 1
            → less_at less xs j' i ≡ false
        newer e j' a' b' = elim (Bool-cases (j' == i)) [
          | inl k ↦ ap (λ t. less_at less xs t i) ((==_iff j' i).0 k) ∙ less_at_irreflexive i
          | inr k ↦ better i j' best e (h j' a' (ground (arith, k)))
        ]

        older :
            less_at less xs i best ≡ false
            → (j' : ℕ) → lo ≤ j'
            → j' < i + 1
            → less_at less xs j' best ≡ false
        older e j' a' b' = elim (Bool-cases (j' == i)) [
          | inl k ↦ ap (λ t. less_at less xs t best) ((==_iff j' i).0 k) ∙ e
          | inr k ↦ h j' a' (ground (arith, k))
        ]

    min_index_least :
        (left stop j : ℕ)
        → left ≤ j
        → j < stop
        → less_at less xs j (min_index less xs left stop) ≡ false
    unfolding min_index
    min_index_least left stop j a b =
        min_from_least (stop - left - 1) (left + 1) left left
          (λ i c d. ap (λ t. less_at less xs t left) (omega arith) ∙ less_at_irreflexive left) j a
          (omega arith)

    pub plan-IsLeast :
        (k left stop : ℕ) → left ≤ stop → stop - left ≤ k → IsLeast (plan k left stop)
    unfolding plan
    plan-IsLeast zero left stop h e = tt
    plan-IsLeast (suc k) left stop h e =
        let m = min_index less xs left stop in
        elim (Bool-cases (leb stop left)) [
          | inl c ↦ rw c tt
          | inr c ↦
              let (lo, hi) = min_index_between left stop (ground (arith, c)) in
              rw c (
                subst (All (λ i. less_at less xs i m ≡ false))
                    (sym (node-plan k left m stop lo hi (omega arith)))
                    (All-range (λ i. less_at less xs i m ≡ false) left (stop - left)
                      (λ j a b. min_index_least left stop j a (omega arith))),
                plan-IsLeast k left m lo (omega arith),
                plan-IsLeast k (m + 1) stop (omega arith) (omega arith),
              )
        ]

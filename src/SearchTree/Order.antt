-- ===== src/SearchTree/Order.antt =====
-- The order of a search tree, and what `Inorder` lists.
use level_db.Prelude.{
  suc, ◌≡◌, refl, Bool, true, false, List, [], ◌∷◌, ◌++◌, All, length, arith, length-append,
  Bool-cases, inl, inr, All-append,
}
use level_db.SearchTree.{Tree, insert, insert_all, inorder}

abbrev pub AllNodes : {D : Type 0} → (D → Type 0) → Tree D → Type 0
AllNodes P Tree.null = Unit
AllNodes P (Tree.node x left right) = P x × AllNodes P left × AllNodes P right

AllNodes-inorder : {D : Type 0} (P : D → Type 0) (t : Tree D) → AllNodes P t → All P (inorder t)
unfolding inorder
AllNodes-inorder P Tree.null h = tt
AllNodes-inorder P (Tree.node x left right) (h, l, r) =
    All-append P (inorder left) (x ∷ inorder right) (AllNodes-inorder P left l)
      (h, AllNodes-inorder P right r)

module _ {D : Type 0} (comp : D → D → Bool) where
  -- What is left of a node comes before it, what is right of it does not.
  abbrev pub IsOrdered : Tree D → Type 0
  IsOrdered Tree.null = Unit
  IsOrdered (Tree.node x left right) =
      AllNodes (λ d. comp d x ≡ true) left
      × AllNodes (λ d. comp d x ≡ false) right
      × IsOrdered left
      × IsOrdered right

  -- No element comes before an earlier one.
  abbrev pub IsSorted : List D → Type 0
  IsSorted [] = Unit
  IsSorted (x ∷ xs) = All (λ d. comp d x ≡ false) xs × IsSorted xs

  module _ (to_bool : D → Bool) where
    AllNodes-insert :
        (P : D → Type 0) (t : Tree D) (d : D)
        → P d
        → AllNodes P t
        → AllNodes P (insert comp to_bool t d)
    unfolding insert
    AllNodes-insert P Tree.null d p h = (p, tt, tt)
    AllNodes-insert P (Tree.node x left right) d p (h, l, r) = elim (Bool-cases (comp d x)) [
      | inl e ↦ rw e (h, AllNodes-insert P left d p l, r)
      | inr e ↦ elim (Bool-cases (to_bool d)) [
        | inl k ↦ rw (e, k) (h, l, AllNodes-insert P right d p r)
        | inr k ↦ rw (e, k) (h, l, r)
      ]
    ]

    insert-IsOrdered : (t : Tree D) (d : D) → IsOrdered t → IsOrdered (insert comp to_bool t d)
    unfolding insert
    insert-IsOrdered Tree.null d h = (tt, tt, tt, tt)
    insert-IsOrdered (Tree.node x left right) d (l, r, ol, or) = elim (Bool-cases (comp d x)) [
      | inl e ↦
          rw e
            (AllNodes-insert (λ c. comp c x ≡ true) left d e l, r, insert-IsOrdered left d ol, or)
      | inr e ↦ elim (Bool-cases (to_bool d)) [
        | inl k ↦
            rw (e, k)
              (
                l,
                AllNodes-insert (λ c. comp c x ≡ false) right d e r,
                ol,
                insert-IsOrdered right d or,
              )
        | inr k ↦ rw (e, k) (l, r, ol, or)
      ]
    ]

    insert_all-IsOrdered :
        (t : Tree D) (ds : List D) → IsOrdered t → IsOrdered (insert_all comp to_bool t ds)
    unfolding insert_all
    insert_all-IsOrdered t [] h = h
    insert_all-IsOrdered t (d ∷ ds) h =
        insert_all-IsOrdered (insert comp to_bool t d) ds (insert-IsOrdered t d h)

    -- Inserting an element that converts to true makes the listing longer by one, also where the
    -- element is in the tree already.
    pub length-inorder-insert :
        (t : Tree D) (d : D)
        → to_bool d ≡ true
        → length (inorder (insert comp to_bool t d)) ≡ suc (length (inorder t))
    unfolding insert inorder
    length-inorder-insert Tree.null d h = refl
    length-inorder-insert (Tree.node x left right) d h = elim (Bool-cases (comp d x)) [
      | inl e ↦ rw e (
          omega (
            arith,
            length-inorder-insert left d h,
            length-append (inorder (insert comp to_bool left d)) (x ∷ inorder right),
            length-append (inorder left) (x ∷ inorder right),
          ))
      | inr e ↦
          rw (e, h)
            (omega (
              arith,
              length-inorder-insert right d h,
              length-append (inorder left) (x ∷ inorder (insert comp to_bool right d)),
              length-append (inorder left) (x ∷ inorder right),
            ))
    ]

  module _ (irreflexive : (a : D) → comp a a ≡ false)
      (transitive : (a b c : D) → comp a b ≡ true → comp b c ≡ true → comp a c ≡ true) where
    not_before : (x a b : D) → comp a x ≡ true → comp b x ≡ false → comp b a ≡ false
    not_before x a b before after = elim (Bool-cases (comp b a)) [
      | inr e ↦ e
      | inl e ↦ absurd (cc (transitive b a x e before))
    ]

    none_before :
        (x a : D) (bs : List D)
        → comp a x ≡ true
        → All (λ d. comp d x ≡ false) bs
        → All (λ d. comp d a ≡ false) bs
    none_before x a [] before h = tt
    none_before x a (b ∷ bs) before (h, hs) =
        (not_before x a b before h, none_before x a bs before hs)

    join-IsSorted :
        (x : D) (xs ys : List D)
        → All (λ d. comp d x ≡ true) xs
        → All (λ d. comp d x ≡ false) ys
        → IsSorted xs
        → IsSorted ys
        → IsSorted (xs ++ x ∷ ys)
    join-IsSorted x [] ys l r sl sr = (r, sr)
    join-IsSorted x (a ∷ xs) ys (before, l) r (h, sl) sr = (
      All-append (λ d. comp d a ≡ false) xs (x ∷ ys) h
          (not_before x a x before (irreflexive x), none_before x a ys before r),
      join-IsSorted x xs ys l r sl sr,
    )

    inorder-IsSorted : (t : Tree D) → IsOrdered t → IsSorted (inorder t)
    unfolding inorder
    inorder-IsSorted Tree.null h = tt
    inorder-IsSorted (Tree.node x left right) (l, r, ol, or) =
        join-IsSorted x (inorder left) (inorder right)
          (AllNodes-inorder (λ d. comp d x ≡ true) left l)
          (AllNodes-inorder (λ d. comp d x ≡ false) right r) (inorder-IsSorted left ol)
          (inorder-IsSorted right or)

    -- With a comparator that is irreflexive and transitive, `Inorder` lists what `Insert` has put
    -- into an empty tree so that no element comes before an earlier one.
    pub inorder-insert_all-IsSorted :
        (to_bool : D → Bool) (ds : List D)
        → IsSorted (inorder (insert_all comp to_bool Tree.null ds))
    inorder-insert_all-IsSorted to_bool ds =
        inorder-IsSorted (insert_all comp to_bool Tree.null ds)
          (insert_all-IsOrdered to_bool Tree.null ds tt)

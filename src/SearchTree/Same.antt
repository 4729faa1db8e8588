-- ===== src/SearchTree/Same.antt =====
-- `IsSame` compares the shapes of two trees with their data.
use level_db.Prelude.{◌≡◌, ◌↔◌, refl, subst, Bool, true, false, ◌&&◌}
use level_db.SearchTree.{Tree, is_same}

and_true : (a b : Bool) → (a && b) ≡ true → (a ≡ true) × (b ≡ true)
and_true true b h = (refl, h)
and_true false b h = absurd (cc)

module _ {D : Type 0} (same : D → D → Bool)
    (same_iff : (x y : D) → (same x y ≡ true) ↔ (x ≡ y)) where
  is_same_sound : (a b : Tree D) → is_same same a b ≡ true → a ≡ b
  unfolding is_same
  is_same_sound Tree.null Tree.null h = refl
  is_same_sound Tree.null (Tree.node y l r) h = absurd (cc)
  is_same_sound (Tree.node x l r) Tree.null h = absurd (cc)
  is_same_sound (Tree.node x l r) (Tree.node y l' r') h =
      let (hx, rest) = and_true (same x y) _ h in
      let (hl, hr) = and_true (is_same same l l') _ rest in
      cc ((same_iff x y).0 hx, is_same_sound l l' hl, is_same_sound r r' hr)

  is_same_refl : (a : Tree D) → is_same same a a ≡ true
  unfolding is_same
  is_same_refl Tree.null = refl
  is_same_refl (Tree.node x l r) = rw ((same_iff x x).1 refl, is_same_refl l, is_same_refl r) refl

  -- If `==` holds exactly of equal data, `IsSame` holds exactly of equal trees.
  pub is_same_iff : (a b : Tree D) → (is_same same a b ≡ true) ↔ (a ≡ b)
  is_same_iff a b =
      (is_same_sound a b, λ e. subst (λ t. is_same same a t ≡ true) e (is_same_refl a))

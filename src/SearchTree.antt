-- ===== src/SearchTree.antt =====
-- The class `BST` of main.cpp. `Dtype` is a parameter with its `Comparator`, its `==` and its
-- conversion to `bool`. `Inorder` prints the data that are listed here.
pub mod Order
pub mod Same
pub mod Weighted
pub mod Table
pub mod Tests
use level_db.Prelude.{Bool, true, false, ◌&&◌, List, [], ◌∷◌, ◌++◌, if◌then◌else◌}

-- A `shared_ptr<Node>`: null, or a node with its children.
pub data Tree (D : Type 0) : Type 0 where
  null : Tree D
  node : D → Tree D → Tree D → Tree D

module _ {D : Type 0} (comp : D → D → Bool) (to_bool : D → Bool) where
  -- The second test of the source is `root->data, data`, a comma: it asks whether `data` is not
  -- zero.
  pub insert : Tree D → D → Tree D
  insert null d = Tree.node d Tree.null Tree.null
  insert (node x left right) d =
      let left' = insert left d in
      let right' = insert right d in
      if comp d x
      then Tree.node x left' right
      else if to_bool d
      then Tree.node x left right'
      else Tree.node x left right

  pub insert_all : Tree D → List D → Tree D
  unfolding insert
  insert_all t [] = t
  insert_all t (d ∷ ds) = insert_all (insert t d) ds

pub inorder : {D : Type 0} → Tree D → List D
inorder null = []
inorder (node x left right) = inorder left ++ x ∷ inorder right

pub is_same : {D : Type 0} → (D → D → Bool) → Tree D → Tree D → Bool
is_same same null null = true
is_same same null (node y left' right') = false
is_same same (node x left right) null = false
is_same same (node x left right) (node y left' right') =
    same x y && (is_same same left left' && is_same same right right')

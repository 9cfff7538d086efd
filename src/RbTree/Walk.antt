-- ===== src/RbTree/Walk.antt =====
-- The walks of src/rbtree.c along the entries: minimum, maximum, predecessor, successor, for_each.
pub mod Order
use diagonal.Base.{ℕ, zero, suc, Option, none, some, List, [], ◌∷◌}
use diagonal.RbTree.{Color, Entry, Tree, leaf, node, Step, left_of, right_of, RbTree, up}

-- A pointer to a node: the node's fields and its path to the root.
pub record Place (K V : Type 0) : Type 0 where
  pub color : Color
  pub left : Tree K V
  pub entry : Entry K V
  pub right : Tree K V
  pub path : List (Step K V)

module _ {K V : Type 0} where
  abbrev pub here : Place K V → Tree K V
  here p = node p.color p.left p.entry p.right

  -- `none` is NULL.
  unfoldable pub leftmost : Tree K V → List (Step K V) → Option (Place K V)
  leftmost leaf path = none
  leftmost (node c leaf e r) path =
      some (record { color = c; left = leaf; entry = e; right = r; path = path })
  leftmost (node c (node lc ll le lr) e r) path = leftmost (node lc ll le lr) (left_of c e r ∷ path)

  unfoldable pub rightmost : Tree K V → List (Step K V) → Option (Place K V)
  rightmost leaf path = none
  rightmost (node c l e leaf) path =
      some (record { color = c; left = l; entry = e; right = leaf; path = path })
  rightmost (node c l e (node rc rl re rr)) path =
      rightmost (node rc rl re rr) (right_of c l e ∷ path)

  -- `while (n->parent) { if (LEFTP(n)) return n->parent; n = n->parent; }`
  unfoldable pub climb_left : Tree K V → List (Step K V) → Option (Place K V)
  climb_left n [] = none
  climb_left n (left_of c e r ∷ path) =
      some (record { color = c; left = n; entry = e; right = r; path = path })
  climb_left n (right_of c l e ∷ path) = climb_left (node c l e n) path

  unfoldable pub climb_right : Tree K V → List (Step K V) → Option (Place K V)
  climb_right n [] = none
  climb_right n (left_of c e r ∷ path) = climb_right (node c n e r) path
  climb_right n (right_of c l e ∷ path) =
      some (record { color = c; left = l; entry = e; right = n; path = path })

  unfoldable pub inorder_successor : Place K V → Option (Place K V)
  inorder_successor p = elim p.right [
    | leaf ↦ climb_left (here p) p.path
    | node c l e r ↦ leftmost (node c l e r) (right_of p.color p.left p.entry ∷ p.path)
  ]

  unfoldable pub inorder_predecessor : Place K V → Option (Place K V)
  inorder_predecessor p = elim p.left [
    | leaf ↦ climb_right (here p) p.path
    | node c l e r ↦ rightmost (node c l e r) (left_of p.color p.entry p.right ∷ p.path)
  ]

  unfoldable pub rbtree_minimum : RbTree K V → Option (Place K V)
  rbtree_minimum tree = leftmost tree.root []

  unfoldable pub rbtree_maximum : RbTree K V → Option (Place K V)
  rbtree_maximum tree = rightmost tree.root []

  -- The calls of `callback`, in order; `none` is a loop that ran out of fuel.
  unfoldable pub visit : ℕ → Place K V → Option (List (Entry K V))
  visit zero p = none
  visit (suc fuel) p = elim (inorder_successor p) [
    | none ↦ some (p.entry ∷ [])
    | some next ↦ elim (visit fuel next) [ none ↦ none | some calls ↦ some (p.entry ∷ calls) ]
  ]

  unfoldable pub rbtree_for_each : ℕ → RbTree K V → Option (List (Entry K V))
  rbtree_for_each fuel tree = elim (rbtree_minimum tree) [ none ↦ some [] | some p ↦ visit fuel p ]

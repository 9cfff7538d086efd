-- ===== src/RbTree/Insert.antt =====
-- `diag_rbtree_insert` of src/rbtree.c, with `insert1` to `insert5`. `none` is a failed assertion.
pub mod Balance
pub mod Repair
pub mod Descend
pub mod Sorted
pub mod Sequence
use diagonal.Base.{
  and_then, ℕ, zero, suc, ◌+◌, ◌%◌, ◌&&◌, not, Bool, true, false, Option, none, some, List, [], ◌∷◌,
  if◌then◌else◌,
}
use diagonal.Base.Word.{add_size}
use Prim.Native.Nat.Ordering.{lt, eq, gt}
use Prim.Native.Nat.{Ordering}
use diagonal.RbTree.{
  Color, red, black, Entry, Tree, leaf, node, Step, left_of, right_of, RbTree, is_red, turn_black,
  turn_red, up, plug, is_left, step_red, sibling, paint, put_sibling, rotate_left, rotate_right,
}

module _ {K V : Type 0} where
  -- `p` and `g` are the steps to the parent and from there to the grandparent.
  unfoldable pub insert5 : Tree K V → Step K V → Step K V → List (Step K V) → Option (Tree K V)
  insert5 n p g path =
      let top = up (up n (paint black p)) (paint red g) in
      let rotated =
        (if is_left p && is_left g
          then rotate_right top
          else if not (is_left p) && not (is_left g)
          then rotate_left top
          else none) in
      and_then rotated λ t. some (plug t path)

  -- `n = n->left; insert5(t, n);` at a node, and the same on the right
  unfoldable pub insert5_left : Tree K V → Step K V → List (Step K V) → Option (Tree K V)
  insert5_left leaf g path = none
  insert5_left (node c l e r) g path = insert5 l (left_of c e r) g path

  unfoldable pub insert5_right : Tree K V → Step K V → List (Step K V) → Option (Tree K V)
  insert5_right leaf g path = none
  insert5_right (node c l e r) g path = insert5 r (right_of c l e) g path

  -- After a rotation about `p`, `n` stands in its place with `p` as its child.
  unfoldable pub insert4 : Tree K V → Step K V → Step K V → List (Step K V) → Option (Tree K V)
  insert4 n p g path =
      if not (is_left p) && is_left g
      then and_then (rotate_left (up n p)) (λ t. insert5_left t g path)
      else if is_left p && not (is_left g)
      then and_then (rotate_right (up n p)) (λ t. insert5_right t g path)
      else insert5 n p g path

  -- `again` is `insert1` at the grandparent.
  unfoldable pub insert3 :
      (Tree K V → Option (Tree K V)) → Tree K V → Step K V → List (Step K V) → Option (Tree K V)
  insert3 again n p [] = none
  insert3 again n p (g ∷ path) =
      let u = sibling g in
      if is_red u
      then again (turn_red (up (up n (paint black p)) (put_sibling (turn_black u) g)))
      else insert4 n p g path

  unfoldable pub insert2 :
      (Tree K V → Option (Tree K V)) → Tree K V → Step K V → List (Step K V) → Option (Tree K V)
  insert2 again n p path = if step_red p then insert3 again n p path else some (plug n (p ∷ path))

  unfoldable pub insert1 : Tree K V → List (Step K V) → Option (Tree K V)
  insert1 n [] = some (turn_black n)
  insert1 n (p ∷ []) = insert2 (λ t. none) n p []
  insert1 n (p ∷ g ∷ path) = insert2 (λ t. insert1 t path) n p (g ∷ path)

module _ {K V : Type 0} (cmp : K → K → Ordering) where
  -- The loop that looks for the place of `key`: left where it is less, right where it is not.
  unfoldable pub descend : K → Tree K V → List (Step K V) → List (Step K V)
  descend key leaf path = path
  descend key (node c l e r) path = elim (cmp key e.key) [
    | lt ↦ descend key l (left_of c e r ∷ path)
    | eq ↦ descend key r (right_of c l e ∷ path)
    | gt ↦ descend key r (right_of c l e ∷ path)
  ]

  unfoldable pub rbtree_insert : RbTree K V → Entry K V → Option (RbTree K V)
  rbtree_insert tree entry = elim tree.root [
    | leaf ↦ some (record { root = node black leaf entry leaf; num_nodes = 1 })
    | node c l e r ↦
        and_then (insert1 (node red leaf entry leaf) (descend entry.key (node c l e r) []))
          λ root. some (record { root = root; num_nodes = add_size tree.num_nodes 1 })
  ]

-- ===== src/RbTree/Delete.antt =====
-- `diag_rbtree_delete` of src/rbtree.c, with `delete1` to `delete6`. `none` is a failed assertion.
pub mod Entries
pub mod Whole
pub mod Imbalance
use diagonal.Base.{
  and_then, ℕ, zero, suc, ◌-◌, ◌&&◌, not, Bool, true, false, Option, none, some, List, [], ◌∷◌,
  if◌then◌else◌, length,
}
use diagonal.Base.Word.{sub_size}
use diagonal.RbTree.{
  Color, red, black, Entry, Tree, leaf, node, Step, left_of, right_of, RbTree, is_red, turn_black,
  turn_red, up, plug, is_left, step_red, sibling, paint, put_sibling, rotate_left, rotate_right,
}
use diagonal.RbTree.Walk.{Place, inorder_predecessor}

module _ {K V : Type 0} where
  -- `s && BLACKP(s)`
  abbrev pub is_black_node : Tree K V → Bool
  is_black_node leaf = false
  is_black_node (node red l e r) = false
  is_black_node (node black l e r) = true

  -- `(!s->left || BLACKP(s->left)) && (!s->right || BLACKP(s->right))`
  abbrev pub black_children : Tree K V → Bool
  black_children leaf = true
  black_children (node c l e r) = not (is_red l) && not (is_red r)

  -- COPY_COLOR from the parent to the sibling.
  abbrev pub copy_color : Step K V → Tree K V → Tree K V
  copy_color p leaf = leaf
  copy_color (left_of c e r) (node cs l se r') = node c l se r'
  copy_color (right_of c l e) (node cs l' se r) = node c l' se r

  abbrev pub turn_right_black : Tree K V → Tree K V
  turn_right_black leaf = leaf
  turn_right_black (node c l e r) = node c l e (turn_black r)

  abbrev pub turn_left_black : Tree K V → Tree K V
  turn_left_black leaf = leaf
  turn_left_black (node c l e r) = node c (turn_black l) e r

  abbrev pub is_leaf : Tree K V → Bool
  is_leaf leaf = true
  is_leaf (node c l e r) = false

  -- `assert(n && BLACKP(n))`
  unfoldable pub assert_black : Tree K V → Option (Tree K V) → Option (Tree K V)
  assert_black n rest = if is_black_node n then rest else none

  pub delete6 : Tree K V → Step K V → List (Step K V) → Option (Tree K V)
  delete6 n p path =
      let s = copy_color p (sibling p) in
      let p' = paint black p in
      assert_black n (
        if is_leaf s
        then some (plug (up n p') path)
        else if is_left p
        then and_then (rotate_left (up n (put_sibling (turn_right_black s) p')))
            (λ t. some (plug t path))
        else and_then (rotate_right (up n (put_sibling (turn_left_black s) p')))
            (λ t. some (plug t path)))

  abbrev pub left_red : Tree K V → Bool
  left_red leaf = false
  left_red (node c l e r) = is_red l

  abbrev pub right_red : Tree K V → Bool
  right_red leaf = false
  right_red (node c l e r) = is_red r

  pub delete5 : Tree K V → Step K V → List (Step K V) → Option (Tree K V)
  delete5 n p path =
      let s = sibling p in
      assert_black n (
        if is_black_node s && (is_left p && (not (right_red s) && left_red s))
        then and_then (rotate_right (turn_red (turn_left_black s)))
            (λ s'. delete6 n (put_sibling s' p) path)
        else if is_black_node s && (not (is_left p) && (not (left_red s) && right_red s))
        then and_then (rotate_left (turn_red (turn_right_black s)))
            (λ s'. delete6 n (put_sibling s' p) path)
        else delete6 n p path)

  pub delete4 : Tree K V → Step K V → List (Step K V) → Option (Tree K V)
  delete4 n p path =
      let s = sibling p in
      assert_black n (
        if step_red p && (is_black_node s && black_children s)
        then some (plug (up n (put_sibling (turn_red s) (paint black p))) path)
        else delete5 n p path)

  -- `again` is `delete1`.
  pub delete3 :
      (Tree K V → List (Step K V) → Option (Tree K V))
      → Tree K V
      → Step K V
      → List (Step K V)
      → Option (Tree K V)
  delete3 again n p path =
      let s = sibling p in
      assert_black n (
        if not (step_red p) && (is_black_node s && black_children s)
        then again (up n (put_sibling (turn_red s) p)) path
        else delete4 n p path)

  -- After the rotation about its parent `n` stands below its parent below its former sibling.
  pub delete3_left :
      (Tree K V → List (Step K V) → Option (Tree K V))
      → Tree K V
      → List (Step K V)
      → Option (Tree K V)
  delete3_left again leaf path = none
  delete3_left again (node cs leaf se sr) path = none
  delete3_left again (node cs (node cp n e sl) se sr) path =
      delete3 again n (left_of cp e sl) (left_of cs se sr ∷ path)

  pub delete3_right :
      (Tree K V → List (Step K V) → Option (Tree K V))
      → Tree K V
      → List (Step K V)
      → Option (Tree K V)
  delete3_right again leaf path = none
  delete3_right again (node cs sl se leaf) path = none
  delete3_right again (node cs sl se (node cp sr e n)) path =
      delete3 again n (right_of cp sr e) (right_of cs sl se ∷ path)

  pub delete2 :
      (Tree K V → List (Step K V) → Option (Tree K V))
      → Tree K V
      → Step K V
      → List (Step K V)
      → Option (Tree K V)
  delete2 again n p path =
      let s = sibling p in
      let parent = up n (put_sibling (turn_black s) (paint red p)) in
      assert_black n (
        if is_red s
        then if is_left p
          then and_then (rotate_left parent) (λ t. delete3_left again t path)
          else and_then (rotate_right parent) (λ t. delete3_right again t path)
        else delete3 again n p path)

  -- Each call of `delete1` from `delete3` is one step nearer to the root, so fuel above the length of
  -- the path is enough.
  pub delete1 : ℕ → Tree K V → List (Step K V) → Option (Tree K V)
  delete1 zero n path = none
  delete1 (suc fuel) n [] = assert_black n (some n)
  delete1 (suc fuel) n (p ∷ path) = assert_black n (delete2 (delete1 fuel) n p path)

  -- `while (node->left && node->right)`: the predecessor's key and attribute move into the node, and
  -- the predecessor is deleted in its place.
  pub delete_target : ℕ → Place K V → Option (Place K V)
  delete_target zero p = none
  delete_target (suc fuel) p =
      let moved =
        and_then (inorder_predecessor p)
          (λ q. inorder_predecessor (record p { entry = q.entry })) in
      if is_leaf p.left
      then some p
      else if is_leaf p.right
      then some p
      else and_then moved (λ q. delete_target fuel q)

  -- The node has one child at most.
  pub delete_node : Place K V → Option (Tree K V)
  delete_node p =
      let c = (if is_leaf p.left then p.right else p.left) in
      if is_red (node p.color leaf p.entry leaf)
      then some (plug c p.path)
      else if is_leaf c
      then some (plug c p.path)
      else if is_red c
      then some (plug (turn_black c) p.path)
      else assert_black c (delete1 (suc (length p.path)) c p.path)

  -- The tree is the one that the place is in; two rounds of the loop are enough.
  pub rbtree_delete : ℕ → Place K V → Option (RbTree K V)
  rbtree_delete num_nodes p = and_then (delete_target 2 p) λ q.
      and_then (delete_node q)
        λ root. some (record { root = root; num_nodes = sub_size num_nodes 1 })

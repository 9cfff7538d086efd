-- ===== src/RbTree.antt =====
-- Red-black trees (src/rbtree.c, src/diagonal/rbtree.h): the nodes and the walks between them.
--
-- A node is handled by its place: the subtree below it (its fields `left` and `right`), and the steps
-- up to the root (its `parent`, the parent's `parent`, and so on). So `n->parent` is `up`, and a
-- write to a node reaches every place that shares it. NULL is `leaf`, or a path that has ended.
pub mod Insert
pub mod Delete
pub mod Entries
pub mod Search
pub mod Walk
mod Examples
use diagonal.Base.{
  ℕ, zero, suc, ◌+◌, Bool, true, false, Option, none, some, List, [], ◌∷◌, if◌then◌else◌,
}
use Prim.Native.Nat.{Ordering}

pub data Color : Type 0 where
  red black : Color

module _ (K V : Type 0) where
  pub record Entry : Type 0 where
    pub key : K
    pub attr : V

  pub data Tree : Type 0 where
    leaf : Tree
    node : Color → Tree → Entry → Tree → Tree

  -- From a node to its parent: the node is the left or the right child, and the other child hangs
  -- on the other side.
  pub data Step : Type 0 where
    left_of : Color → Entry → Tree → Step
    right_of : Color → Tree → Entry → Step

  -- `struct diag_rbtree`, but for the comparison, which is a parameter.
  pub record RbTree : Type 0 where
    pub root : Tree
    pub num_nodes : ℕ

module _ {K V : Type 0} where
  -- REDP, for a pointer that may be NULL
  abbrev pub is_red : Tree K V → Bool
  is_red leaf = false
  is_red (node red l e r) = true
  is_red (node black l e r) = false

  abbrev pub turn_black : Tree K V → Tree K V
  turn_black leaf = leaf
  turn_black (node c l e r) = node black l e r

  abbrev pub turn_red : Tree K V → Tree K V
  turn_red leaf = leaf
  turn_red (node c l e r) = node red l e r

  abbrev pub up : Tree K V → Step K V → Tree K V
  up n (left_of c e r) = node c n e r
  up n (right_of c l e) = node c l e n

  -- From a place to the root.
  abbrev pub plug : Tree K V → List (Step K V) → Tree K V
  plug n [] = n
  plug n (s ∷ path) = plug (up n s) path

  abbrev pub is_left : Step K V → Bool
  is_left (left_of c e r) = true
  is_left (right_of c l e) = false

  -- The colour of the parent.
  abbrev pub step_red : Step K V → Bool
  step_red (left_of red e r) = true
  step_red (left_of black e r) = false
  step_red (right_of red l e) = true
  step_red (right_of black l e) = false

  -- SIBLING
  abbrev pub sibling : Step K V → Tree K V
  sibling (left_of c e r) = r
  sibling (right_of c l e) = l

  abbrev pub paint : Color → Step K V → Step K V
  paint c (left_of c' e r) = left_of c e r
  paint c (right_of c' l e) = right_of c l e

  abbrev pub put_sibling : Tree K V → Step K V → Step K V
  put_sibling s (left_of c e r) = left_of c e s
  put_sibling s (right_of c l e) = right_of c s e

  -- `replace` hangs the result where the node was; `none` is a failed assertion.
  unfoldable pub rotate_left : Tree K V → Option (Tree K V)
  rotate_left leaf = none
  rotate_left (node cb a b leaf) = none
  rotate_left (node cb a b (node cd c d e)) = some (node cd (node cb a b c) d e)

  unfoldable pub rotate_right : Tree K V → Option (Tree K V)
  rotate_right leaf = none
  rotate_right (node cd leaf d e) = none
  rotate_right (node cd (node cb a b c) d e) = some (node cb a b (node cd c d e))

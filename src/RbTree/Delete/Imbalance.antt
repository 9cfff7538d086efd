-- ===== src/RbTree/Delete/Imbalance.antt =====
-- Where deletion breaks the red-black invariant: `diag_rbtree_delete` rebalances only below a child.
use diagonal.Base.{ℕ, ◌+◌, ◌≡◌, refl, some, List, [], ◌∷◌, arith}
use diagonal.RbTree.{black, Entry, Tree, leaf, node, Step, left_of, right_of, RbTree, up, plug}
use diagonal.RbTree.Insert.Balance.{height, IsEven}
use diagonal.RbTree.Delete.{delete_target, delete_node, rbtree_delete}

module _ {K V : Type 0} where
  plug-IsEven_below : (path : List (Step K V)) (t : Tree K V) → IsEven (plug t path) → IsEven t
  plug-IsEven_below [] t e = e
  plug-IsEven_below (left_of c k r ∷ path) t e = (plug-IsEven_below path (node c t k r) e).0
  plug-IsEven_below (right_of c l k ∷ path) t e = (plug-IsEven_below path (node c l k t) e).1

  shorter_uneven :
      (s : Step K V) (t u : Tree K V) → IsEven (up t s) → IsEven (up u s) → height t ≡ height u
  shorter_uneven (left_of c k r) t u (a, b, e) (a', b', e') = omega (arith, e, e')
  shorter_uneven (right_of c l k) t u (a, b, e) (a', b', e') = omega (arith, e, e')

  -- Deleting a black node without children, other than the root, from a tree in which every leaf has
  -- as many black nodes above it gives a tree in which that does not hold any more.
  pub rbtree_delete-not-IsEven :
      (num_nodes : ℕ) (entry : Entry K V) (s : Step K V) (path : List (Step K V))
      → IsEven (plug (node black leaf entry leaf) (s ∷ path))
      → (t : RbTree K V) × (rbtree_delete num_nodes
            (record { color = black; left = leaf; entry = entry; right = leaf; path = s ∷ path })
          ≡ some t)
        × (¬ IsEven t.root)
  unfolding rbtree_delete delete_target delete_node
  rbtree_delete-not-IsEven num_nodes entry s path even = (
    _,
    refl,
    λ after. differ (
        shorter_uneven s leaf (node black leaf entry leaf)
          (plug-IsEven_below path (up leaf s) after)
          (plug-IsEven_below path (up (node black leaf entry leaf) s) even)),
  )
    where
      differ : 0 ≡ 0 + 1 → ⊥
      differ e = omega arith

-- ===== src/RbTree/Examples.antt =====
-- Runs and instances for red-black trees with numbers as keys.
use diagonal.Base.{ℕ, ◌≡◌, refl, some, List, [], ◌∷◌, arith, length}
use Prim.Native.Nat.{compare}
use diagonal.RbTree.{red, black, Entry, Tree, leaf, node, left_of, RbTree, plug}
use diagonal.RbTree.Entries.{entries}
use diagonal.RbTree.Insert.{rbtree_insert}
use diagonal.RbTree.Insert.Balance.{IsEven, IsRedBlack}
use diagonal.Base.Order.{IsRanked}
use diagonal.RbTree.Insert.Sorted.{IsSorted, insert_sorted, rbtree_insert-IsRedBlack}
use diagonal.RbTree.Insert.Sequence.{rbtree_create, insert_all, sorted_onto, insert_all-IsRedBlack}
use diagonal.RbTree.Search.{rbtree_search, IsFound, rbtree_search-IsFound}
use diagonal.RbTree.Walk.{Place, here, inorder_successor, inorder_predecessor, rbtree_for_each}
use diagonal.RbTree.Walk.Order.{
  ahead, behind, IsNext, IsPrevious, inorder_successor-IsNext, rbtree_for_each-entries,
}
use diagonal.RbTree.Delete.{rbtree_delete}
use diagonal.RbTree.Delete.Whole.{rbtree_delete-entries}
use diagonal.RbTree.Delete.Imbalance.{rbtree_delete-not-IsEven}

by_number : IsRanked compare
by_number = record { rank = λ n. n; cmp_rank = λ a b. refl }

abbrev entry : ℕ → Entry ℕ ℕ
entry k = record { key = k; attr = k }

abbrev three : RbTree ℕ ℕ
three = record {
  root = node black (node red leaf (entry 1) leaf) (entry 2) (node red leaf (entry 3) leaf);
  num_nodes = 3;
}

three-IsRedBlack : IsRedBlack three.root
three-IsRedBlack = record {
  even = ((tt, tt, refl), (tt, tt, refl), refl);
  alternating = ((refl, refl, tt, tt), (refl, refl, tt, tt));
  black_root = refl;
}

three-IsSorted : IsSorted compare by_number (entries three.root)
unfolding by_number
three-IsSorted = omega arith

rbtree_insert-IsRedBlack_example :
    (t' : RbTree ℕ ℕ) × (rbtree_insert compare three (entry 4) ≡ some t')
    × IsRedBlack t'.root
    × (entries t'.root ≡ insert_sorted compare by_number (entry 4) (entries three.root))
    × (t'.num_nodes ≡ length (entries t'.root))
rbtree_insert-IsRedBlack_example =
    rbtree_insert-IsRedBlack compare by_number three (entry 4) three-IsRedBlack three-IsSorted refl
      (omega arith)

abbrev unordered : List (Entry ℕ ℕ)
unordered = entry 5 ∷ entry 3 ∷ entry 8 ∷ entry 1 ∷ entry 4 ∷ []

insert_all-IsRedBlack_example :
    (t : RbTree ℕ ℕ) × (insert_all compare rbtree_create unordered ≡ some t)
    × IsRedBlack t.root
    × (entries t.root ≡ sorted_onto compare by_number [] unordered)
    × (t.num_nodes ≡ length (entries t.root))
insert_all-IsRedBlack_example = insert_all-IsRedBlack compare by_number unordered (omega arith)

rbtree_search-IsFound_example :
    IsFound compare by_number 3 (entries three.root) (rbtree_search compare three 3)
rbtree_search-IsFound_example = rbtree_search-IsFound compare by_number three 3 three-IsSorted

rbtree_for_each-entries_example : rbtree_for_each 3 three ≡ some (entries three.root)
rbtree_for_each-entries_example = rbtree_for_each-entries three 3 (omega arith)

-- The node with key 2.
abbrev at_root : Place ℕ ℕ
at_root = record {
  color = black;
  left = node red leaf (entry 1) leaf;
  entry = entry 2;
  right = node red leaf (entry 3) leaf;
  path = [];
}

inorder_successor-IsNext_example :
    IsNext (plug (here at_root) at_root.path) (behind at_root) (inorder_successor at_root)
    × IsPrevious (plug (here at_root) at_root.path) (ahead at_root) (inorder_predecessor at_root)
inorder_successor-IsNext_example = inorder_successor-IsNext at_root

rbtree_delete-entries_example :
    (t : RbTree ℕ ℕ) × (rbtree_delete 3 at_root ≡ some t)
    × (entries t.root ≡ entry 1 ∷ entry 3 ∷ [])
    × (t.num_nodes ≡ 2)
rbtree_delete-entries_example = rbtree_delete-entries 3 at_root (omega arith) (omega arith)

-- Three black nodes; the one with key 1 is deleted.
abbrev right_child : Tree ℕ ℕ
right_child = node black leaf (entry 3) leaf

rbtree_delete-not-IsEven_example :
    (t : RbTree ℕ ℕ) × (rbtree_delete 3 (record {
      color = black;
      left = leaf;
      entry = entry 1;
      right = leaf;
      path = left_of black (entry 2) right_child ∷ [];
    })
      ≡ some t)
    × (¬ IsEven t.root)
rbtree_delete-not-IsEven_example =
    rbtree_delete-not-IsEven 3 (entry 1) (left_of black (entry 2) right_child) []
      ((tt, tt, refl), (tt, tt, refl), refl)

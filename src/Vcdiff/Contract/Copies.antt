-- ===== src/Vcdiff/Contract/Copies.antt =====
-- What the COPYs in the tree say of the data, and insertions into the tree.
use diagonal.Base.{
  ℕ, ◌+◌, ◌≤◌, ◌<◌, ◌≡◌, ◌^◌, refl, sym, subst, some, List, [], ◌∷◌, All, length, ltb, inl, inr,
  Bool-cases,
}
use diagonal.Base.Order.{IsRanked}
use Prim.Native.Nat.{compare}
use diagonal.RbTree.{Entry}
use diagonal.RbTree.Entries.{entries}
use diagonal.RbTree.Insert.{rbtree_insert}
use diagonal.RbTree.Insert.Balance.{IsRedBlack}
use diagonal.RbTree.Insert.Sorted.{IsSorted, insert_sorted, rbtree_insert-IsRedBlack}
use diagonal.RbTree.Insert.Sequence.{rbtree_create, insert_sorted-IsSorted}
use diagonal.Vcdiff.Expand.{Pcode, copy_code}
use diagonal.Vcdiff.Contract.{PieceTree, piece}
use diagonal.Vcdiff.Contract.Loops.{Agree}

unfoldable pub by_number : IsRanked compare
by_number = record { rank = λ n. n; cmp_rank = λ a b. refl }

-- A tree that insertions have made.
pub record IsPieces (t : PieceTree) : Type 0 where
  pub balanced : IsRedBlack t.root
  pub sorted : IsSorted compare by_number (entries t.root)
  pub counted : t.num_nodes ≡ length (entries t.root)

pub create-IsPieces : IsPieces rbtree_create
create-IsPieces = record {
  balanced = record { even = tt; alternating = tt; black_root = refl };
  sorted = tt;
  counted = refl;
}

pub insert-IsPieces :
    (t : PieceTree) (e : Entry ℕ Pcode)
    → IsPieces t
    → length (entries t.root) < 2 ^ 63
    → (t' : PieceTree) × (rbtree_insert compare t e ≡ some t')
      × IsPieces t'
      × (entries t'.root ≡ insert_sorted compare by_number e (entries t.root))
insert-IsPieces t e is fits =
    let (t', returns, balanced, same, counted) =
      rbtree_insert-IsRedBlack compare by_number t e is.balanced is.sorted is.counted fits in
    (
      t',
      returns,
      record {
        balanced = balanced;
        sorted =
            subst (IsSorted compare by_number) (sym same)
              (insert_sorted-IsSorted compare by_number e (entries t.root) is.sorted);
        counted = counted;
      },
      same,
    )

pub insert_sorted-All :
    (P : Entry ℕ Pcode → Type 0) (e : Entry ℕ Pcode) (xs : List (Entry ℕ Pcode))
    → P e
    → All P xs
    → All P (insert_sorted compare by_number e xs)
unfolding by_number
insert_sorted-All P e [] p a = (p, tt)
insert_sorted-All P e (x ∷ xs) p (q, a) = elim (Bool-cases (ltb e.key x.key)) [
  | inl h ↦ rw h (p, (q, a))
  | inr h ↦ rw h (q, insert_sorted-All P e xs p a)
]

-- The bytes from the key on repeat earlier ones, those from `lo` on.
pub record IsCopy (bytes : List ℕ) (e : Entry ℕ Pcode) : Type 0 where
  pub lo : ℕ
  pub size : ℕ
  pub distance : ℕ
  pub is : e ≡ piece (distance + lo) (copy_code size lo)
  pub earlier : 0 < distance
  pub some_bytes : 0 < size
  pub within : distance + lo + size ≤ length bytes
  pub agree : Agree bytes distance lo (lo + size)

-- What the search leaves.
pub record IsSearched (bytes : List ℕ) (tree : PieceTree) : Type 0 where
  pub is_pieces : IsPieces tree
  pub are_copies : All (IsCopy bytes) (entries tree.root)
  pub at_most : length (entries tree.root) ≤ length bytes

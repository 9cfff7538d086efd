-- ===== src/RbTree/Insert/Sequence.antt =====
-- `diag_rbtree_create` of src/rbtree.c and the insertions that follow it.
use diagonal.Base.{
  and_then, ℕ, ◌+◌, ◌≤◌, ◌≡◌, refl, ap, ◌∙◌, Option, some, List, [], ◌∷◌, arith, All, length, ◌^◌,
  ltb, inl, inr, Bool-cases,
}
use Prim.Native.Nat.{Ordering}
use diagonal.RbTree.{Entry, leaf, RbTree}
use diagonal.RbTree.Entries.{entries}
use diagonal.RbTree.Insert.{rbtree_insert}
use diagonal.RbTree.Insert.Balance.{IsRedBlack}
use diagonal.Base.Order.{IsRanked}
use diagonal.RbTree.Insert.Sorted.{
  IsSorted, insert_sorted, length-insert_sorted, rbtree_insert-IsRedBlack,
}

abbrev pub rbtree_create : {K V : Type 0} → RbTree K V
rbtree_create = record { root = leaf; num_nodes = 0 }

module _ {K V : Type 0} (cmp : K → K → Ordering) where
  -- One insertion after the other.
  pub insert_all : RbTree K V → List (Entry K V) → Option (RbTree K V)
  insert_all t [] = some t
  insert_all t (e ∷ es) = and_then (rbtree_insert cmp t e) (λ t'. insert_all t' es)

module _ {K V : Type 0} (cmp : K → K → Ordering) (ranked : IsRanked cmp) where
  -- Insertion sort.
  abbrev pub sorted_onto : List (Entry K V) → List (Entry K V) → List (Entry K V)
  sorted_onto xs [] = xs
  sorted_onto xs (e ∷ es) = sorted_onto (insert_sorted cmp ranked e xs) es

  insert_sorted-All :
      (n : ℕ) (e : Entry K V) (xs : List (Entry K V))
      → n ≤ ranked.rank e.key
      → All (λ y. n ≤ ranked.rank y.key) xs
      → All (λ y. n ≤ ranked.rank y.key) (insert_sorted cmp ranked e xs)
  insert_sorted-All n e [] h a = (h, tt)
  insert_sorted-All n e (x ∷ xs) h (b, a) =
      elim (Bool-cases (ltb (ranked.rank e.key) (ranked.rank x.key))) [
        | inl q ↦ rw q (h, (b, a))
        | inr q ↦ rw q (b, insert_sorted-All n e xs h a)
      ]

  All-le :
      (m n : ℕ) (xs : List (Entry K V))
      → m ≤ n
      → All (λ y. n ≤ ranked.rank y.key) xs
      → All (λ y. m ≤ ranked.rank y.key) xs
  All-le m n [] h a = tt
  All-le m n (x ∷ xs) h (b, a) = (omega arith, All-le m n xs h a)

  pub insert_sorted-IsSorted :
      (e : Entry K V) (xs : List (Entry K V))
      → IsSorted cmp ranked xs
      → IsSorted cmp ranked (insert_sorted cmp ranked e xs)
  insert_sorted-IsSorted e [] s = (tt, tt)
  insert_sorted-IsSorted e (x ∷ xs) (low, s) =
      elim (Bool-cases (ltb (ranked.rank e.key) (ranked.rank x.key))) [
        | inl q ↦
            let h : ranked.rank e.key ≤ ranked.rank x.key = ground (arith, q) in
            rw q ((h, All-le _ _ xs h low), (low, s))
        | inr q ↦
            let h : ranked.rank x.key ≤ ranked.rank e.key = ground (arith, q) in
            rw q (insert_sorted-All _ e xs h low, insert_sorted-IsSorted e xs s)
      ]

  insert_all-from :
      (t : RbTree K V) (es : List (Entry K V))
      → IsRedBlack t.root
      → IsSorted cmp ranked (entries t.root)
      → t.num_nodes ≡ length (entries t.root)
      → length (entries t.root) + length es ≤ 2 ^ 63
      → (t' : RbTree K V) × (insert_all cmp t es ≡ some t')
        × IsRedBlack t'.root
        × (entries t'.root ≡ sorted_onto (entries t.root) es)
        × (t'.num_nodes ≡ length (entries t'.root))
  unfolding insert_all
  insert_all-from t [] rb sorted counted fits = (t, refl, rb, refl, counted)
  insert_all-from t (e ∷ es) rb sorted counted fits =
      let (u, returns, balanced, same, counted') =
        rbtree_insert-IsRedBlack cmp ranked t e rb sorted counted (omega arith) in
      let (t', rest, balanced', same', counted'') =
        insert_all-from u es balanced (rw same (insert_sorted-IsSorted e (entries t.root) sorted))
          counted'
          (omega
            (arith, fits, ap length same, length-insert_sorted cmp ranked e (entries t.root))) in
      (
        t',
        rw (returns, insert_all) rest,
        balanced',
        same' ∙ ap (λ xs. sorted_onto xs es) same,
        counted'',
      )

  -- Whatever sequence of at most 2^63 nodes is inserted into a new tree, no assertion fails, and the
  -- result is a red-black tree that holds the entries sorted, equal keys in the order of insertion,
  -- and their number.
  pub insert_all-IsRedBlack :
      (es : List (Entry K V))
      → length es ≤ 2 ^ 63
      → (t : RbTree K V) × (insert_all cmp rbtree_create es ≡ some t)
        × IsRedBlack t.root
        × (entries t.root ≡ sorted_onto [] es)
        × (t.num_nodes ≡ length (entries t.root))
  insert_all-IsRedBlack es h =
      insert_all-from rbtree_create es (record { even = tt; alternating = tt; black_root = refl })
        tt refl (omega arith)

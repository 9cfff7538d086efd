-- ===== src/RbTree/Search.antt =====
-- `diag_rbtree_search` of src/rbtree.c; `none` is DIAG_FAILURE.
use diagonal.Base.{
  ℕ, zero, suc, ◌+◌, ◌≤◌, ◌<◌, ◌≡◌, ◌≢◌, ap, ◌∙◌, Option, none, some, List, [], ◌∷◌, ◌++◌, arith,
  All, inl, inr, get_elem?, length,
}
use Prim.Native.Nat.Ordering.{lt, eq, gt}
use Prim.Native.Nat.{Ordering}
use diagonal.RbTree.{Entry, Tree, leaf, node, RbTree}
use diagonal.RbTree.Entries.{entries}
use diagonal.Base.Order.{IsRanked, Ordering-cases}
use diagonal.RbTree.Insert.Sorted.{IsSorted, IsSorted-append}

module _ {K V : Type 0} (cmp : K → K → Ordering) where
  pub search_from : K → Tree K V → Option (Entry K V)
  search_from key leaf = none
  search_from key (node c l e r) = elim (cmp key e.key) [
    | lt ↦ search_from key l
    | eq ↦ some e
    | gt ↦ search_from key r
  ]

  pub rbtree_search : RbTree K V → K → Option (Entry K V)
  rbtree_search tree key = search_from key tree.root

module _ {K V : Type 0} (cmp : K → K → Ordering) (ranked : IsRanked cmp) where
  -- What a search for `key` among `xs` may return.
  pub data IsFound (key : K) (xs : List (Entry K V)) : Option (Entry K V) → Type 0 where
    found :
        (i : ℕ) (e : Entry K V)
        → get_elem? xs i ≡ some e
        → cmp key e.key ≡ eq
        → IsFound key xs (some e)
    missing : All (λ e. cmp key e.key ≢ eq) xs → IsFound key xs none

  above :
      (key : K) (n : ℕ) (xs : List (Entry K V))
      → ranked.rank key < n
      → All (λ e. n ≤ ranked.rank e.key) xs
      → All (λ e. cmp key e.key ≢ eq) xs
  above key n [] h a = tt
  above key n (x ∷ xs) h (b, a) = (other, above key n xs h a)
    where
      other : cmp key x.key ≡ eq → ⊥
      other e = ground (arith, ranked.cmp_rank key x.key)

  below :
      (key : K) (n : ℕ) (xs : List (Entry K V))
      → n < ranked.rank key
      → All (λ e. ranked.rank e.key ≤ n) xs
      → All (λ e. cmp key e.key ≢ eq) xs
  below key n [] h a = tt
  below key n (x ∷ xs) h (b, a) = (other, below key n xs h a)
    where
      other : cmp key x.key ≡ eq → ⊥
      other e = ground (arith, ranked.cmp_rank key x.key)

  All-join :
      (P : Entry K V → Type 0) (xs ys : List (Entry K V)) → All P xs → All P ys → All P (xs ++ ys)
  All-join P [] ys a b = b
  All-join P (x ∷ xs) ys (p, a) b = (p, All-join P xs ys a b)

  get_elem?-append_right :
      (xs ys : List (Entry K V)) (i : ℕ) → get_elem? (xs ++ ys) (length xs + i) ≡ get_elem? ys i
  get_elem?-append_right [] ys i = ap (get_elem? ys) {x = 0 + i} {y = i} (omega arith)
  get_elem?-append_right (x ∷ xs) ys i =
      ap (get_elem? (x ∷ xs ++ ys)) {x = suc (length xs) + i} {y = suc (length xs + i)}
        (omega arith)
      ∙ get_elem?-append_right xs ys i

  get_elem?-append_found :
      (xs ys : List (Entry K V)) (i : ℕ) (e : Entry K V)
      → get_elem? xs i ≡ some e
      → get_elem? (xs ++ ys) i ≡ some e
  get_elem?-append_found [] ys i e h = cc
  get_elem?-append_found (x ∷ xs) ys zero e h = h
  get_elem?-append_found (x ∷ xs) ys (suc i) e h = get_elem?-append_found xs ys i e h

  IsFound-left :
      (key : K) (xs ys : List (Entry K V)) (o : Option (Entry K V))
      → IsFound key xs o
      → All (λ e. cmp key e.key ≢ eq) ys
      → IsFound key (xs ++ ys) o
  IsFound-left key xs ys (some e) (found i e' at q) a =
      found i e (get_elem?-append_found xs ys i e at) q
  IsFound-left key xs ys none (missing h) a = missing (All-join _ xs ys h a)

  IsFound-right :
      (key : K) (xs ys : List (Entry K V)) (o : Option (Entry K V))
      → IsFound key ys o
      → All (λ e. cmp key e.key ≢ eq) xs
      → IsFound key (xs ++ ys) o
  IsFound-right key xs ys (some e) (found i e' at q) a =
      found (length xs + i) e (get_elem?-append_right xs ys i ∙ at) q
  IsFound-right key xs ys none (missing h) a = missing (All-join _ xs ys a h)

  search_from-IsFound :
      (key : K) (t : Tree K V)
      → IsSorted cmp ranked (entries t)
      → IsFound key (entries t) (search_from cmp key t)
  unfolding search_from
  search_from-IsFound key leaf s = missing tt
  search_from-IsFound key (node c l e r) s =
      let (low, sorted_l, high, sorted_r) =
        IsSorted-append cmp ranked (entries l) e (entries r) s in
      elim (Ordering-cases (cmp key e.key)) [
        | inl less ↦
            let h : ranked.rank key < ranked.rank e.key =
              ground (arith, ranked.cmp_rank key e.key) in
            rw (less, search_from)
              (IsFound-left key (entries l) (e ∷ entries r) _ (search_from-IsFound key l sorted_l)
                ((λ q. cc), above key (ranked.rank e.key) (entries r) h high))
        | inr (inl same) ↦
            rw (same, search_from)
              (found (length (entries l) + 0) e
                (get_elem?-append_right (entries l) (e ∷ entries r) 0) same)
        | inr (inr more) ↦
            let h : ranked.rank e.key < ranked.rank key =
              ground (arith, ranked.cmp_rank key e.key) in
            rw (more, search_from)
              (IsFound-right key (entries l) (e ∷ entries r) _
                (IsFound-right key (e ∷ []) (entries r) _ (search_from-IsFound key r sorted_r)
                  ((λ q. cc), tt))
                (below key (ranked.rank e.key) (entries l) h low))
      ]

  -- On a tree whose entries are sorted a search returns an entry of the tree whose key compares equal,
  -- and fails only if there is none.
  pub rbtree_search-IsFound :
      (tree : RbTree K V) (key : K)
      → IsSorted cmp ranked (entries tree.root)
      → IsFound key (entries tree.root) (rbtree_search cmp tree key)
  unfolding rbtree_search
  rbtree_search-IsFound tree key s = search_from-IsFound key tree.root s

-- ===== src/RbTree/Insert/Sorted.antt =====
-- `diag_rbtree_insert` on whole trees: the invariant and the sequence of entries.
use diagonal.Base.{
  ℕ, ◌+◌, ◌≤◌, ◌<◌, ◌≡◌, refl, ap, ◌∙◌, some, List, [], ◌∷◌, ◌++◌, arith, append_assoc, append-nil,
  All, if◌then◌else◌, length, ◌^◌, ltb, lt→ltb, le→ltb, inl, inr, ◌⊎◌, Bool-cases,
}
use diagonal.Base.Word.{add_size}
use diagonal.Base.Order.{IsRanked, Ordering-cases}
use Prim.Native.Nat.{Ordering}
use diagonal.RbTree.{
  Color, red, black, Entry, Tree, leaf, node, Step, left_of, right_of, RbTree, plug,
}
use diagonal.RbTree.Entries.{entries, before, after, entries-plug}
use diagonal.RbTree.Insert.{insert1, descend, rbtree_insert}
use diagonal.RbTree.Insert.Balance.{clash, IsRedBlack, Done}
use diagonal.RbTree.Insert.Descend.{descend-PathEven, descend-PathAlternating}
use diagonal.RbTree.Insert.Repair.{insert1-Done}

Tree-cases :
    {K V : Type 0} (t : Tree K V)
    → (t ≡ leaf)
      ⊎ ((c : Color) × (l : Tree K V) × (e : Entry K V) × (r : Tree K V) × (t ≡ node c l e r))
Tree-cases leaf = inl refl
Tree-cases (node c l e r) = inr (c, l, e, r, refl)

module _ {K V : Type 0} (cmp : K → K → Ordering) (ranked : IsRanked cmp) where
  abbrev rank_of : Entry K V → ℕ
  rank_of e = ranked.rank e.key

  -- Ranks do not go down.
  abbrev pub IsSorted : List (Entry K V) → Type 0
  IsSorted [] = Unit
  IsSorted (x ∷ xs) = All (λ y. rank_of x ≤ rank_of y) xs × IsSorted xs

  -- Behind every entry of the same or a lower rank.
  abbrev pub insert_sorted : Entry K V → List (Entry K V) → List (Entry K V)
  insert_sorted e [] = e ∷ []
  insert_sorted e (x ∷ xs) =
      if ltb (rank_of e) (rank_of x) then e ∷ x ∷ xs else x ∷ insert_sorted e xs

  insert_sorted-append_left :
      (e k : Entry K V) (xs ys : List (Entry K V))
      → rank_of e < rank_of k
      → insert_sorted e (xs ++ (k ∷ ys)) ≡ insert_sorted e xs ++ (k ∷ ys)
  insert_sorted-append_left e k [] ys h = rw (lt→ltb (rank_of e) (rank_of k) h)
  insert_sorted-append_left e k (x ∷ xs) ys h = elim (Bool-cases (ltb (rank_of e) (rank_of x))) [
    | inl b ↦ rw b
    | inr b ↦ rw b (ap (λ t. x ∷ t) (insert_sorted-append_left e k xs ys h))
  ]

  pub insert_sorted-append_right :
      (e : Entry K V) (xs ys : List (Entry K V))
      → All (λ x. rank_of x ≤ rank_of e) xs
      → insert_sorted e (xs ++ ys) ≡ xs ++ insert_sorted e ys
  insert_sorted-append_right e [] ys h = refl
  insert_sorted-append_right e (x ∷ xs) ys (b, h) =
      rw (le→ltb (rank_of e) (rank_of x) b) (ap (λ t. x ∷ t) (insert_sorted-append_right e xs ys h))

  All-append :
      (P : Entry K V → Type 0) (xs ys : List (Entry K V)) → All P (xs ++ ys) → All P xs × All P ys
  All-append P [] ys h = (tt, h)
  All-append P (x ∷ xs) ys (p, h) = let (a, b) = All-append P xs ys h in ((p, a), b)

  pub IsSorted-append :
      (xs : List (Entry K V)) (k : Entry K V) (ys : List (Entry K V))
      → IsSorted (xs ++ (k ∷ ys))
      → All (λ x. rank_of x ≤ rank_of k) xs
        × IsSorted xs
        × All (λ y. rank_of k ≤ rank_of y) ys
        × IsSorted ys
  IsSorted-append [] k ys s = (tt, tt, s.0, s.1)
  IsSorted-append (x ∷ xs) k ys (a, s) =
      let (low, sorted, high, rest) = IsSorted-append xs k ys s in
      let (front, back) = All-append _ xs (k ∷ ys) a in ((back.0, low), (front, sorted), high, rest)

  All-le_trans :
      (xs : List (Entry K V)) (a b : ℕ)
      → a ≤ b
      → All (λ x. rank_of x ≤ a) xs
      → All (λ x. rank_of x ≤ b) xs
  All-le_trans [] a b h p = tt
  All-le_trans (x ∷ xs) a b h (q, p) = (omega arith, All-le_trans xs a b h p)

  entries-descend_right :
      (e k : Entry K V) (l r : Tree K V)
      → rank_of k ≤ rank_of e
      → IsSorted (entries l ++ (k ∷ entries r))
      → insert_sorted e (entries l ++ (k ∷ entries r))
        ≡ entries l ++ (k ∷ insert_sorted e (entries r))
  entries-descend_right e k l r h s =
      let low = (IsSorted-append (entries l) k (entries r) s).0 in
      insert_sorted-append_right e (entries l) (k ∷ entries r)
        (All-le_trans (entries l) (rank_of k) (rank_of e) h low)
      ∙ rw (le→ltb (rank_of e) (rank_of k) h)

  entries-descend :
      (e : Entry K V) (t : Tree K V) (path : List (Step K V))
      → IsSorted (entries t)
      → entries (plug (node red leaf e leaf) (descend cmp e.key t path))
        ≡ before path ++ (insert_sorted e (entries t) ++ after path)
  unfolding descend
  entries-descend e leaf path s = entries-plug path (node red leaf e leaf)
  entries-descend e (node c l k r) path s =
      let (low, sorted_l, high, sorted_r) = IsSorted-append (entries l) k (entries r) s in
      elim (Ordering-cases (cmp e.key k.key)) [
        | inl less ↦
            let h : rank_of e < rank_of k = ground (arith, ranked.cmp_rank e.key k.key) in
            rw (less, descend)
              (entries-descend e l (left_of c k r ∷ path) sorted_l
                ∙ rw (insert_sorted-append_left e k (entries l) (entries r) h) (simp append_assoc))
        | inr (inl same) ↦
            let h : rank_of k ≤ rank_of e = ground (arith, ranked.cmp_rank e.key k.key) in
            rw (same, descend)
              (entries-descend e r (right_of c l k ∷ path) sorted_r
                ∙ rw (entries-descend_right e k l r h s) (simp append_assoc))
        | inr (inr more) ↦
            let h : rank_of k ≤ rank_of e = ground (arith, ranked.cmp_rank e.key k.key) in
            rw (more, descend)
              (entries-descend e r (right_of c l k ∷ path) sorted_r
                ∙ rw (entries-descend_right e k l r h s) (simp append_assoc))
      ]

  pub length-insert_sorted :
      (e : Entry K V) (xs : List (Entry K V)) → length (insert_sorted e xs) ≡ length xs + 1
  length-insert_sorted e [] = omega arith
  length-insert_sorted e (x ∷ xs) = elim (Bool-cases (ltb (rank_of e) (rank_of x))) [
    | inl b ↦ rw b (omega arith)
    | inr b ↦ rw b (omega (arith, length-insert_sorted e xs))
  ]

  -- The new node, put where the search for its key ends, is repaired.
  inserted :
      (e : Entry K V) (t : Tree K V)
      → IsRedBlack t
      → IsSorted (entries t)
      → Done
          (plug (node red leaf e leaf) (descend cmp e.key t []))
          (insert1 (node red leaf e leaf) (descend cmp e.key t []))
        × (entries (plug (node red leaf e leaf) (descend cmp e.key t []))
            ≡ insert_sorted e (entries t))
  inserted e t rb sorted = (
    insert1-Done (node red leaf e leaf) (descend cmp e.key t []) (record {
      is = refl;
      even = (tt, tt, refl);
      alternating = (refl, refl, tt, tt);
      path_even = descend-PathEven cmp e.key t [] rb.even tt;
      path_alternating =
          descend-PathAlternating cmp e.key t [] rb.alternating
            (λ h. absurd (clash rb.black_root h)) tt;
    }),
    entries-descend e t [] sorted ∙ append-nil (insert_sorted e (entries t)),
  )

  -- Inserting into a red-black tree whose entries are sorted fails no assertion. It gives a red-black
  -- tree whose entries are the old ones and the new one behind all that are not greater, and counts
  -- it.
  pub rbtree_insert-IsRedBlack :
      (t : RbTree K V) (e : Entry K V)
      → IsRedBlack t.root
      → IsSorted (entries t.root)
      → t.num_nodes ≡ length (entries t.root)
      → length (entries t.root) < 2 ^ 63
      → (t' : RbTree K V) × (rbtree_insert cmp t e ≡ some t')
        × IsRedBlack t'.root
        × (entries t'.root ≡ insert_sorted e (entries t.root))
        × (t'.num_nodes ≡ length (entries t'.root))
  unfolding rbtree_insert
  rbtree_insert-IsRedBlack t e rb sorted counted fits = elim (Tree-cases t.root) [
    | inl is_leaf ↦
        let none_before : entries t.root ≡ [] = rw is_leaf in
        (
          record { root = node black leaf e leaf; num_nodes = 1 },
          rw (is_leaf, rbtree_insert),
          record { even = (tt, tt, refl); alternating = (tt, tt); black_root = refl },
          rw none_before,
          refl,
        )
    | inr (c, l, k, r, is_node) ↦
        let (d, sum) = inserted e t.root rb sorted in
        let new = d.same ∙ sum in
        (
          record { root = d.root; num_nodes = add_size t.num_nodes 1 },
          rw (is_node, rbtree_insert) (rw (← is_node, d.returns)),
          d.balanced,
          new,
          omega (arith, ap length new, length-insert_sorted e (entries t.root), counted, fits),
        )
  ]

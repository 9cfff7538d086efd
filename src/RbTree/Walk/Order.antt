-- ===== src/RbTree/Walk/Order.antt =====
-- The walks follow the sequence of entries.
use diagonal.Base.{
  ℕ, zero, suc, ◌≤◌, ◌<◌, ◌≡◌, refl, sym, ap, subst, Option, none, some, List, [], ◌∷◌, ◌++◌, arith,
  append_assoc, append-nil, length,
}
use diagonal.RbTree.{Color, Entry, Tree, leaf, node, Step, left_of, right_of, RbTree, plug}
use diagonal.RbTree.Entries.{entries, before, after}
use diagonal.RbTree.Walk.{
  Place, here, leftmost, rightmost, climb_left, climb_right, inorder_successor, inorder_predecessor,
  rbtree_minimum, visit, rbtree_for_each,
}

module _ {K V : Type 0} where
  -- The entries behind a node, and those before it.
  abbrev pub behind : Place K V → List (Entry K V)
  behind p = entries p.right ++ after p.path

  abbrev pub ahead : Place K V → List (Entry K V)
  ahead p = before p.path ++ entries p.left

  -- The place is of the first of the entries `next`, in the tree `whole`; without entries it is NULL.
  pub data IsNext (whole : Tree K V) (next : List (Entry K V)) : Option (Place K V) → Type 0 where
    ends : next ≡ [] → IsNext whole next none
    steps :
        (p : Place K V)
        → next ≡ p.entry ∷ behind p
        → plug (here p) p.path ≡ whole
        → IsNext whole next (some p)

  pub data IsPrevious (whole : Tree K V) (previous : List (Entry K V))
      : Option (Place K V) → Type 0 where
    begins : previous ≡ [] → IsPrevious whole previous none
    steps_back :
        (p : Place K V)
        → previous ≡ ahead p ++ (p.entry ∷ [])
        → plug (here p) p.path ≡ whole
        → IsPrevious whole previous (some p)

  IsNext-at :
      {w : Tree K V} {xs ys : List (Entry K V)} {o : Option (Place K V)}
      → xs ≡ ys
      → IsNext w xs o
      → IsNext w ys o
  IsNext-at {w} {xs} {ys} {o} e n = subst (λ t. IsNext w t o) e n

  IsPrevious-at :
      {w : Tree K V} {xs ys : List (Entry K V)} {o : Option (Place K V)}
      → xs ≡ ys
      → IsPrevious w xs o
      → IsPrevious w ys o
  IsPrevious-at {w} {xs} {ys} {o} e n = subst (λ t. IsPrevious w t o) e n

  leftmost-IsNext :
      (c : Color) (l : Tree K V) (e : Entry K V) (r : Tree K V) (path : List (Step K V))
      → IsNext
          (plug (node c l e r) path)
          (entries (node c l e r) ++ after path)
          (leftmost (node c l e r) path)
  unfolding leftmost
  leftmost-IsNext c leaf e r path = steps _ refl refl
  leftmost-IsNext c (node lc ll le lr) e r path =
      IsNext-at (sym (append_assoc (entries (node lc ll le lr)) (e ∷ entries r) (after path)))
        (leftmost-IsNext lc ll le lr (left_of c e r ∷ path))

  rightmost-IsPrevious :
      (c : Color) (l : Tree K V) (e : Entry K V) (r : Tree K V) (path : List (Step K V))
      → IsPrevious
          (plug (node c l e r) path)
          (before path ++ entries (node c l e r))
          (rightmost (node c l e r) path)
  unfolding rightmost
  rightmost-IsPrevious c l e leaf path =
      steps_back _ (sym (append_assoc (before path) (entries l) (e ∷ []))) refl
  rightmost-IsPrevious c l e (node rc rl re rr) path =
      IsPrevious-at (simp append_assoc) (rightmost-IsPrevious rc rl re rr (right_of c l e ∷ path))

  climb_left-IsNext :
      (n : Tree K V) (path : List (Step K V))
      → IsNext (plug n path) (after path) (climb_left n path)
  unfolding climb_left
  climb_left-IsNext n [] = ends refl
  climb_left-IsNext n (left_of c e r ∷ path) = steps _ refl refl
  climb_left-IsNext n (right_of c l e ∷ path) = climb_left-IsNext (node c l e n) path

  climb_right-IsPrevious :
      (n : Tree K V) (path : List (Step K V))
      → IsPrevious (plug n path) (before path) (climb_right n path)
  unfolding climb_right
  climb_right-IsPrevious n [] = begins refl
  climb_right-IsPrevious n (left_of c e r ∷ path) = climb_right-IsPrevious (node c n e r) path
  climb_right-IsPrevious n (right_of c l e ∷ path) =
      steps_back _ (sym (append_assoc (before path) (entries l) (e ∷ []))) refl

  -- The successor of a node is the node of the next entry of the tree and NULL at the last one, and
  -- the predecessor is that of the previous entry and NULL at the first one.
  pub inorder_successor-IsNext :
      (p : Place K V)
      → IsNext (plug (here p) p.path) (behind p) (inorder_successor p)
        × IsPrevious (plug (here p) p.path) (ahead p) (inorder_predecessor p)
  unfolding inorder_successor inorder_predecessor
  inorder_successor-IsNext p = (next p.right, previous p.left)
    where
      next :
          (r : Tree K V)
          → IsNext
              (plug (node p.color p.left p.entry r) p.path)
              (entries r ++ after p.path)
              (elim r as (λ t. Option (Place K V)) [
                | leaf ↦ climb_left (node p.color p.left p.entry r) p.path
                | node c l e r' ↦
                    leftmost (node c l e r') (right_of p.color p.left p.entry ∷ p.path)
              ])
      next leaf = climb_left-IsNext (node p.color p.left p.entry leaf) p.path
      next (node c l e r) = leftmost-IsNext c l e r (right_of p.color p.left p.entry ∷ p.path)

      previous :
          (l : Tree K V)
          → IsPrevious
              (plug (node p.color l p.entry p.right) p.path)
              (before p.path ++ entries l)
              (elim l as (λ t. Option (Place K V)) [
                | leaf ↦ climb_right (node p.color l p.entry p.right) p.path
                | node c l' e r ↦
                    rightmost (node c l' e r) (left_of p.color p.entry p.right ∷ p.path)
              ])
      previous leaf =
          IsPrevious-at (sym (append-nil (before p.path)))
            (climb_right-IsPrevious (node p.color leaf p.entry p.right) p.path)
      previous (node c l e r) =
          rightmost-IsPrevious c l e r (left_of p.color p.entry p.right ∷ p.path)

  -- The minimum is the first node.
  pub first-IsNext : (t : Tree K V) → IsNext t (entries t) (leftmost t [])
  unfolding leftmost
  first-IsNext leaf = ends refl
  first-IsNext (node c l e r) =
      IsNext-at (append-nil (entries (node c l e r))) (leftmost-IsNext c l e r [])

  visit_next :
      (fuel : ℕ) (p : Place K V)
      → ((q : Place K V) → length (behind q) < fuel → visit fuel q ≡ some (q.entry ∷ behind q))
      → length (behind p) < suc fuel
      → (o : Option (Place K V)) → IsNext (plug (here p) p.path) (behind p) o
      → (elim o as (λ t. Option (List (Entry K V))) [
        | none ↦ some (p.entry ∷ [])
        | some next ↦ elim (visit fuel next) [ none ↦ none | some calls ↦ some (p.entry ∷ calls) ]
      ])
        ≡ some (p.entry ∷ behind p)
  visit_next fuel p rest h none (ends e) = rw e
  visit_next fuel p rest h (some q) (steps q' e w) = rw (rest q (omega (arith, ap length e))) (rw e)

  visit-behind :
      (fuel : ℕ) (p : Place K V)
      → length (behind p) < fuel
      → visit fuel p ≡ some (p.entry ∷ behind p)
  unfolding visit
  visit-behind zero p h = absurd (omega arith)
  visit-behind (suc fuel) p h =
      visit_next fuel p (λ q k. visit-behind fuel q k) h (inorder_successor p)
        (inorder_successor-IsNext p).0

  -- `diag_rbtree_for_each` calls back with every entry once, from left to right, and ends: it takes
  -- no more rounds than there are entries.
  pub rbtree_for_each-entries :
      (tree : RbTree K V) (fuel : ℕ)
      → length (entries tree.root) ≤ fuel
      → rbtree_for_each fuel tree ≡ some (entries tree.root)
  unfolding rbtree_for_each rbtree_minimum
  rbtree_for_each-entries tree fuel h = from_root tree.root h
    where
      started :
          (xs : List (Entry K V)) (w : Tree K V) (o : Option (Place K V))
          → length xs ≤ fuel
          → IsNext w xs o
          → (elim o as (λ o. Option (List (Entry K V))) [ none ↦ some [] | some p ↦ visit fuel p ])
            ≡ some xs
      started xs w none k (ends e) = rw e
      started xs w (some p) k (steps p' e w') =
          rw e (visit-behind fuel p (omega (arith, ap length e)))

      from_root :
          (t : Tree K V)
          → length (entries t) ≤ fuel
          → (elim (leftmost t []) as (λ o. Option (List (Entry K V))) [
            | none ↦ some []
            | some p ↦ visit fuel p
          ])
            ≡ some (entries t)
      from_root t k = started (entries t) t (leftmost t []) k (first-IsNext t)

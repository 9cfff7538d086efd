-- ===== src/RbTree/Delete/Entries.antt =====
-- Deletion takes one entry out of the sequence and fails no assertion, on any tree.
use diagonal.Base.{
  ℕ, zero, suc, ◌<◌, ◌≡◌, refl, sym, subst, Bool, true, false, not, ◌&&◌, Option, some, List, [],
  ◌∷◌, arith, append_assoc, length, inl, inr, Bool-cases,
}
use diagonal.RbTree.{
  Color, red, black, Entry, Tree, leaf, node, Step, left_of, right_of, turn_black, turn_red, up,
  plug, is_left, step_red, sibling, paint, put_sibling, rotate_left, rotate_right,
}
use diagonal.RbTree.Entries.{entries, plug-entries, entries-turn_black, entries-turn_red}
use diagonal.RbTree.Delete.{
  is_black_node, black_children, turn_right_black, turn_left_black, left_red, right_red, delete1,
  delete2, delete3, delete3_left, delete3_right, delete4, delete5, delete6, assert_black,
}

last_of_three : (a b c d : Bool) → a && (b && (c && d)) ≡ true → d ≡ true
last_of_three true true true d h = h
last_of_three true true false d h = cc
last_of_three true false c d h = cc
last_of_three false b c d h = cc

module _ {K V : Type 0} where
  -- A tree is returned, and it has these entries.
  pub data Keeps (es : List (Entry K V)) : Option (Tree K V) → Type 0 where
    keeps : (t : Tree K V) → entries t ≡ es → Keeps es (some t)

  kept_plug :
      (path : List (Step K V)) (t u : Tree K V)
      → entries t ≡ entries u
      → Keeps (entries (plug u path)) (some (plug t path))
  kept_plug path t u e = keeps (plug t path) (plug-entries path t u e)

  delete6-Keeps :
      (n : Tree K V) (p : Step K V) (path : List (Step K V))
      → is_black_node n ≡ true
      → Keeps (entries (plug (up n p) path)) (delete6 n p path)
  unfolding delete6 assert_black rotate_left rotate_right
  delete6-Keeps n (left_of c e leaf) path b = rw b (kept_plug path _ _ refl)
  delete6-Keeps n (left_of c e (node cs sl se sr)) path b = rw b (
      kept_plug path (node c (node black n e sl) se (turn_black sr)) _
        (rw (entries-turn_black sr) (append_assoc (entries n) (e ∷ entries sl) (se ∷ entries sr))))
  delete6-Keeps n (right_of c leaf e) path b = rw b (kept_plug path _ _ refl)
  delete6-Keeps n (right_of c (node cs sl se sr) e) path b = rw b (
      kept_plug path (node c (turn_black sl) se (node black sr e n)) _ (
        rw (entries-turn_black sl)
          (sym (append_assoc (entries sl) (se ∷ entries sr) (e ∷ entries n)))))

  entries-put_sibling :
      (n s : Tree K V) (p : Step K V)
      → entries s ≡ entries (sibling p)
      → entries (up n (put_sibling s p)) ≡ entries (up n p)
  entries-put_sibling n s (left_of c e r) h = rw h
  entries-put_sibling n s (right_of c l e) h = rw h

  entries-paint :
      (n : Tree K V) (c : Color) (p : Step K V) → entries (up n (paint c p)) ≡ entries (up n p)
  entries-paint n c (left_of c' e r) = refl
  entries-paint n c (right_of c' l e) = refl

  -- The sibling's rotation of `delete5`.
  raise_left :
      (s : Tree K V)
      → left_red s ≡ true
      → (s' : Tree K V) × (rotate_right (turn_red (turn_left_black s)) ≡ some s')
        × (entries s' ≡ entries s)
  unfolding rotate_right
  raise_left leaf h = cc
  raise_left (node c leaf e r) h = cc
  raise_left (node c (node c' a b d) e r) h = (
    node black a b (node red d e r),
    refl,
    sym (append_assoc (entries a) (b ∷ entries d) (e ∷ entries r)),
  )

  raise_right :
      (s : Tree K V)
      → right_red s ≡ true
      → (s' : Tree K V) × (rotate_left (turn_red (turn_right_black s)) ≡ some s')
        × (entries s' ≡ entries s)
  unfolding rotate_left
  raise_right leaf h = cc
  raise_right (node c l e leaf) h = cc
  raise_right (node c l e (node c' a b d)) h = (
    node black (node red l e a) b d,
    refl,
    append_assoc (entries l) (e ∷ entries a) (b ∷ entries d),
  )

  Keeps-at : {xs ys : List (Entry K V)} {o : Option (Tree K V)} → xs ≡ ys → Keeps xs o → Keeps ys o
  Keeps-at {xs} {ys} {o} e k = subst (λ t. Keeps t o) e k

  delete5-Keeps :
      (n : Tree K V) (p : Step K V) (path : List (Step K V))
      → is_black_node n ≡ true
      → Keeps (entries (plug (up n p) path)) (delete5 n p path)
  unfolding delete5 assert_black
  delete5-Keeps n p path b =
      let s = sibling p in
      elim (Bool-cases (is_black_node s && (is_left p && (not (right_red s) && left_red s)))) [
        | inl t ↦
            let (s', made, same) =
              raise_left s
                (last_of_three (is_black_node s) (is_left p) (not (right_red s)) (left_red s) t) in
            rw (b, t, made)
              (Keeps-at (plug-entries path _ _ (entries-put_sibling n s' p same))
                (delete6-Keeps n (put_sibling s' p) path b))
        | inr f ↦
            rw (b, f)
              (elim (Bool-cases
                (is_black_node s && (not (is_left p) && (not (left_red s) && right_red s)))) [
                  | inl t ↦
                      let (s', made, same) = raise_right s (
                        last_of_three (is_black_node s) (not (is_left p)) (not (left_red s))
                          (right_red s) t) in
                      rw (t, made)
                        (Keeps-at (plug-entries path _ _ (entries-put_sibling n s' p same))
                          (delete6-Keeps n (put_sibling s' p) path b))
                  | inr g ↦ rw g (delete6-Keeps n p path b)
                ])
      ]

  delete4-Keeps :
      (n : Tree K V) (p : Step K V) (path : List (Step K V))
      → is_black_node n ≡ true
      → Keeps (entries (plug (up n p) path)) (delete4 n p path)
  unfolding delete4 assert_black
  delete4-Keeps n p path b =
      let s = sibling p in
      elim (Bool-cases (step_red p && (is_black_node s && black_children s))) [
        | inl t ↦ rw (b, t) (kept_plug path _ _ (entries_reddened n p))
        | inr f ↦ rw (b, f) (delete5-Keeps n p path b)
      ]
    where
      entries_reddened :
          (n : Tree K V) (p : Step K V)
          → entries (up n (put_sibling (turn_red (sibling p)) (paint black p))) ≡ entries (up n p)
      entries_reddened n (left_of c e r) = rw (entries-turn_red r)
      entries_reddened n (right_of c l e) = rw (entries-turn_red l)

  -- `again` returns for every tree that hangs on the rest of the path.
  delete3-Keeps :
      (again : Tree K V → List (Step K V) → Option (Tree K V)) (n : Tree K V) (p : Step K V)
      (path : List (Step K V))
      → (step_red p ≡ false
          → (m : Tree K V) → is_black_node m ≡ true
          → Keeps (entries (plug m path)) (again m path))
      → is_black_node n ≡ true
      → Keeps (entries (plug (up n p) path)) (delete3 again n p path)
  unfolding delete3 assert_black
  delete3-Keeps again n p path rec b =
      let s = sibling p in
      elim (Bool-cases (not (step_red p) && (is_black_node s && black_children s))) [
        | inl t ↦
            rw (b, t)
              (Keeps-at
                (plug-entries path _ _ (entries-put_sibling n (turn_red s) p (entries-turn_red s)))
                (rec (is_black (step_red p) (is_black_node s && black_children s) t)
                  (up n (put_sibling (turn_red s) p))
                  (up_black n (turn_red s) p
                    (is_black (step_red p) (is_black_node s && black_children s) t))))
        | inr f ↦ rw (b, f) (delete4-Keeps n p path b)
      ]
    where
      is_black : (b c : Bool) → not b && c ≡ true → b ≡ false
      is_black true c h = cc
      is_black false c h = refl

      up_black :
          (n s : Tree K V) (p : Step K V)
          → step_red p ≡ false
          → is_black_node (up n (put_sibling s p)) ≡ true
      up_black n s (left_of red e r) h = cc
      up_black n s (left_of black e r) h = refl
      up_black n s (right_of red l e) h = cc
      up_black n s (right_of black l e) h = refl

  delete2-Keeps :
      (again : Tree K V → List (Step K V) → Option (Tree K V)) (n : Tree K V) (p : Step K V)
      (path : List (Step K V))
      → ((m : Tree K V) → is_black_node m ≡ true → Keeps (entries (plug m path)) (again m path))
      → is_black_node n ≡ true
      → Keeps (entries (plug (up n p) path)) (delete2 again n p path)
  unfolding delete2 assert_black delete3_left delete3_right rotate_left rotate_right
  delete2-Keeps again n (left_of c e leaf) path rec b =
      rw b (delete3-Keeps again n (left_of c e leaf) path (λ _. rec) b)
  delete2-Keeps again n (left_of c e (node black sl se sr)) path rec b =
      rw b (delete3-Keeps again n (left_of c e (node black sl se sr)) path (λ _. rec) b)
  delete2-Keeps again n (left_of c e (node red sl se sr)) path rec b = rw b (
      Keeps-at
        (plug-entries path (node black (node red n e sl) se sr) (node c n e (node red sl se sr))
          (append_assoc (entries n) (e ∷ entries sl) (se ∷ entries sr)))
        (delete3-Keeps again n (left_of red e sl) (left_of black se sr ∷ path) (λ h. cc) b))
  delete2-Keeps again n (right_of c leaf e) path rec b =
      rw b (delete3-Keeps again n (right_of c leaf e) path (λ _. rec) b)
  delete2-Keeps again n (right_of c (node black sl se sr) e) path rec b =
      rw b (delete3-Keeps again n (right_of c (node black sl se sr) e) path (λ _. rec) b)
  delete2-Keeps again n (right_of c (node red sl se sr) e) path rec b = rw b (
      Keeps-at
        (plug-entries path (node black sl se (node red sr e n)) (node c (node red sl se sr) e n)
          (sym (append_assoc (entries sl) (se ∷ entries sr) (e ∷ entries n))))
        (delete3-Keeps again n (right_of red sr e) (right_of black sl se ∷ path) (λ h. cc) b))

  pub delete1-Keeps :
      (fuel : ℕ) (n : Tree K V) (path : List (Step K V))
      → length path < fuel
      → is_black_node n ≡ true
      → Keeps (entries (plug n path)) (delete1 fuel n path)
  unfolding delete1 assert_black
  delete1-Keeps zero n path h b = absurd (omega arith)
  delete1-Keeps (suc fuel) n [] h b = rw b (keeps n refl)
  delete1-Keeps (suc fuel) n (p ∷ path) h b =
      rw b (delete2-Keeps (delete1 fuel) n p path (λ m. delete1-Keeps fuel m path (omega arith)) b)

-- ===== src/RbTree/Insert/Repair.antt =====
-- Each of `insert1` to `insert5` ends in a red-black tree with the same entries.
use diagonal.Base.{
  ℕ, ◌+◌, ◌≡◌, refl, sym, ◌∙◌, subst, Bool, true, false, Option, none, List, [], ◌∷◌, arith, inl,
  inr, Bool-cases, append_assoc, if◌then◌else◌,
}
use diagonal.RbTree.{
  Color, red, black, Tree, leaf, node, Step, left_of, right_of, is_red, turn_black, turn_red, up,
  plug, step_red, sibling, paint, put_sibling, rotate_left, rotate_right,
}
use diagonal.RbTree.Entries.{entries, plug-entries, entries-turn_black}
use diagonal.RbTree.Insert.{
  insert5, insert4, insert5_left, insert5_right, insert3, insert2, insert1,
}
use diagonal.RbTree.Insert.Balance.{
  clash, height, IsEven, IsAlternating, PathEven, PathAlternating, plug-IsEven, plug-IsAlternating,
  plug-black_root, Done, finish,
}

module _ {K V : Type 0} where
  -- A red node that may have a red parent.
  pub record IsLoose (n : Tree K V) (path : List (Step K V)) : Type 0 where
    pub is : is_red n ≡ true
    pub even : IsEven n
    pub alternating : IsAlternating n
    pub path_even : PathEven path (height n)
    pub path_alternating : PathAlternating path

  at_height : (path : List (Step K V)) (h k : ℕ) → h ≡ k → PathEven path h → PathEven path k
  at_height path h k e p = subst (PathEven path) e p

  insert4-Done :
      (n : Tree K V) (p g : Step K V) (path : List (Step K V))
      → IsLoose n (paint red p ∷ paint black g ∷ path)
      → is_red (sibling g) ≡ false
      → Done
          (plug n (paint red p ∷ paint black g ∷ path))
          (insert4 n (paint red p) (paint black g) path)
  unfolding insert4 insert5 insert5_left insert5_right rotate_left rotate_right
  insert4-Done leaf p g path h u = absurd (clash refl h.is)
  insert4-Done (node black l e r) p g path h u = absurd (clash refl h.is)
  insert4-Done (node red l e r) (left_of cp pe pr) (left_of cg ge gr) path h u =
      let (even_p, h_p, (even_g, h_g, above)) = h.path_even in
      let pa = h.path_alternating in
      finish path (node black (node red l e r) pe (node red pr ge gr))
        (node black (node red (node red l e r) pe pr) ge gr) refl
        (h.even, (even_p, even_g, omega (arith, h_p, h_g)), omega (arith, h_p))
        (h.alternating, (pa.1 refl, u, pa.0, pa.3.0)) (at_height path _ _ (omega arith) above)
        pa.3.3 (simp append_assoc)
  insert4-Done (node red l e r) (right_of cp pl pe) (left_of cg ge gr) path h u =
      let (even_p, h_p, (even_g, h_g, above)) = h.path_even in
      let (even_l, even_r, h_l) = h.even in
      let pa = h.path_alternating in
      let (red_l, red_r, alt_l, alt_r) = h.alternating in
      finish path (node black (node red pl pe l) e (node red r ge gr))
        (node black (node red pl pe (node red l e r)) ge gr) refl
        (
          (even_p, even_l, omega (arith, h_p)),
          (even_r, even_g, omega (arith, h_g, h_l)),
          omega (arith, h_p, h_l),
        )
        ((pa.1 refl, red_l, pa.0, alt_l), (red_r, u, alt_r, pa.3.0))
        (at_height path _ _ (omega (arith, h_p)) above) pa.3.3 (simp append_assoc)
  insert4-Done (node red l e r) (left_of cp pe pr) (right_of cg gl ge) path h u =
      let (even_p, h_p, (even_g, h_g, above)) = h.path_even in
      let (even_l, even_r, h_l) = h.even in
      let pa = h.path_alternating in
      let (red_l, red_r, alt_l, alt_r) = h.alternating in
      finish path (node black (node red gl ge l) e (node red r pe pr))
        (node black gl ge (node red (node red l e r) pe pr)) refl
        (
          (even_g, even_l, omega (arith, h_g)),
          (even_r, even_p, omega (arith, h_p, h_l)),
          omega (arith, h_g, h_l),
        )
        ((u, red_l, pa.3.0, alt_l), (red_r, pa.1 refl, alt_r, pa.0))
        (at_height path _ _ (omega (arith, h_g)) above) pa.3.3 (simp append_assoc)
  insert4-Done (node red l e r) (right_of cp pl pe) (right_of cg gl ge) path h u =
      let (even_p, h_p, (even_g, h_g, above)) = h.path_even in
      let pa = h.path_alternating in
      finish path (node black (node red gl ge pl) pe (node red l e r))
        (node black gl ge (node red pl pe (node red l e r))) refl
        ((even_g, even_p, omega (arith, h_g, h_p)), h.even, omega (arith, h_g, h_p))
        ((u, pa.1 refl, pa.3.0, pa.0), h.alternating)
        (at_height path _ _ (omega (arith, h_g)) above) pa.3.3 (simp append_assoc)

  turn_black-IsEven : (u : Tree K V) → IsEven u → IsEven (turn_black u)
  turn_black-IsEven leaf e = tt
  turn_black-IsEven (node c l k r) e = e

  turn_black-IsAlternating : (u : Tree K V) → IsAlternating u → IsAlternating (turn_black u)
  turn_black-IsAlternating leaf a = tt
  turn_black-IsAlternating (node red l k r) a = (a.2, a.3)
  turn_black-IsAlternating (node black l k r) a = a

  turn_black-not_red : (u : Tree K V) → is_red (turn_black u) ≡ false
  turn_black-not_red leaf = refl
  turn_black-not_red (node c l k r) = refl

  height-turn_black : (u : Tree K V) → is_red u ≡ true → height (turn_black u) ≡ height u + 1
  height-turn_black leaf h = cc
  height-turn_black (node red l k r) h = omega arith
  height-turn_black (node black l k r) h = cc

  -- The grandparent after the parent and the uncle have turned black and itself red.
  abbrev recolored : Tree K V → Step K V → Step K V → Tree K V
  recolored n p g =
      turn_red (
        up (up n (paint black (paint red p)))
          (put_sibling (turn_black (sibling g)) (paint black g)))

  entries-recolored :
      (n : Tree K V) (p g : Step K V)
      → entries (recolored n p g) ≡ entries (up (up n (paint red p)) (paint black g))
  entries-recolored n (left_of cp pe pr) (left_of cg ge gr) = rw (entries-turn_black gr)
  entries-recolored n (left_of cp pe pr) (right_of cg gl ge) = rw (entries-turn_black gl)
  entries-recolored n (right_of cp pl pe) (left_of cg ge gr) = rw (entries-turn_black gr)
  entries-recolored n (right_of cp pl pe) (right_of cg gl ge) = rw (entries-turn_black gl)

  recolored-IsLoose :
      (n : Tree K V) (p g : Step K V) (path : List (Step K V))
      → IsLoose n (paint red p ∷ paint black g ∷ path)
      → is_red (sibling g) ≡ true
      → IsLoose (recolored n p g) path
  recolored-IsLoose n (left_of cp pe pr) (left_of cg ge gr) path h u =
      let (even_p, h_p, (even_g, h_g, above)) = h.path_even in
      let pa = h.path_alternating in
      let taller = height-turn_black gr u in
      record {
        is = refl;
        even = ((h.even, even_p, sym h_p), turn_black-IsEven gr even_g, omega (arith, taller, h_g));
        alternating = (
          refl,
          turn_black-not_red gr,
          (h.alternating, pa.0),
          turn_black-IsAlternating gr pa.3.0,
        );
        path_even = at_height path _ _ (omega arith) above;
        path_alternating = pa.3.3;
      }
  recolored-IsLoose n (left_of cp pe pr) (right_of cg gl ge) path h u =
      let (even_p, h_p, (even_g, h_g, above)) = h.path_even in
      let pa = h.path_alternating in
      let taller = height-turn_black gl u in
      record {
        is = refl;
        even = (turn_black-IsEven gl even_g, (h.even, even_p, sym h_p), omega (arith, taller, h_g));
        alternating = (
          turn_black-not_red gl,
          refl,
          turn_black-IsAlternating gl pa.3.0,
          (h.alternating, pa.0),
        );
        path_even = at_height path _ _ (omega (arith, taller, h_g)) above;
        path_alternating = pa.3.3;
      }
  recolored-IsLoose n (right_of cp pl pe) (left_of cg ge gr) path h u =
      let (even_p, h_p, (even_g, h_g, above)) = h.path_even in
      let pa = h.path_alternating in
      let taller = height-turn_black gr u in
      record {
        is = refl;
        even =
            ((even_p, h.even, h_p), turn_black-IsEven gr even_g, omega (arith, taller, h_g, h_p));
        alternating = (
          refl,
          turn_black-not_red gr,
          (pa.0, h.alternating),
          turn_black-IsAlternating gr pa.3.0,
        );
        path_even = at_height path _ _ (omega (arith, h_p)) above;
        path_alternating = pa.3.3;
      }
  recolored-IsLoose n (right_of cp pl pe) (right_of cg gl ge) path h u =
      let (even_p, h_p, (even_g, h_g, above)) = h.path_even in
      let pa = h.path_alternating in
      let taller = height-turn_black gl u in
      record {
        is = refl;
        even =
            (turn_black-IsEven gl even_g, (even_p, h.even, h_p), omega (arith, taller, h_g, h_p));
        alternating = (
          turn_black-not_red gl,
          refl,
          turn_black-IsAlternating gl pa.3.0,
          (pa.0, h.alternating),
        );
        path_even = at_height path _ _ (omega (arith, taller, h_g)) above;
        path_alternating = pa.3.3;
      }

  paint_own : (c : Bool) (s : Step K V) → step_red s ≡ c → paint (if c then red else black) s ≡ s
  paint_own true (left_of red e r) h = refl
  paint_own true (left_of black e r) h = cc
  paint_own true (right_of red l e) h = refl
  paint_own true (right_of black l e) h = cc
  paint_own false (left_of red e r) h = cc
  paint_own false (left_of black e r) h = refl
  paint_own false (right_of red l e) h = cc
  paint_own false (right_of black l e) h = refl

  sibling-paint : (c : Color) (s : Step K V) → sibling (paint c s) ≡ sibling s
  sibling-paint c (left_of c' e r) = refl
  sibling-paint c (right_of c' l e) = refl

  insert3-Done :
      (again : Tree K V → Option (Tree K V)) (n : Tree K V) (p g : Step K V)
      (path : List (Step K V))
      → IsLoose n (paint red p ∷ paint black g ∷ path)
      → ((m : Tree K V) → IsLoose m path → Done (plug m path) (again m))
      → Done
          (plug n (paint red p ∷ paint black g ∷ path))
          (insert3 again n (paint red p) (paint black g ∷ path))
  unfolding insert3
  insert3-Done again n p g path h repaired = elim (Bool-cases (is_red (sibling g))) [
    | inl u ↦
        let d = repaired (recolored n p g) (recolored-IsLoose n p g path h u) in
        rw (sibling-paint black g, u)
          (record {
            root = d.root;
            returns = d.returns;
            balanced = d.balanced;
            same = d.same ∙ plug-entries path _ _ (entries-recolored n p g);
          })
    | inr u ↦ rw (sibling-paint black g, u) (insert4-Done n p g path h u)
  ]

  -- The same at a red and a black step as they come.
  insert3_at :
      (again : Tree K V → Option (Tree K V)) (n : Tree K V) (p g : Step K V)
      (path : List (Step K V))
      → step_red p ≡ true
      → step_red g ≡ false
      → IsLoose n (p ∷ g ∷ path)
      → ((m : Tree K V) → IsLoose m path → Done (plug m path) (again m))
      → Done (plug n (p ∷ g ∷ path)) (insert3 again n p (g ∷ path))
  insert3_at again n p g path is_p is_g h repaired =
      subst
        (λ s.
          IsLoose n (s ∷ g ∷ path) → Done (plug n (s ∷ g ∷ path)) (insert3 again n s (g ∷ path)))
        (paint_own true p is_p)
        (subst
          (λ s.
            IsLoose n (paint red p ∷ s ∷ path)
            → Done (plug n (paint red p ∷ s ∷ path)) (insert3 again n (paint red p) (s ∷ path)))
          (paint_own false g is_g) (λ k. insert3-Done again n p g path k repaired))
        h

  insert2-black_parent :
      (again : Tree K V → Option (Tree K V)) (n : Tree K V) (p : Step K V) (path : List (Step K V))
      → IsLoose n (p ∷ path)
      → step_red p ≡ false
      → Done (plug n (p ∷ path)) (insert2 again n p path)
  unfolding insert2
  insert2-black_parent again n p path h e = rw e (record {
    root = plug n (p ∷ path);
    returns = refl;
    balanced = record {
      even = plug-IsEven (p ∷ path) n h.even h.path_even;
      alternating =
          plug-IsAlternating (p ∷ path) n h.alternating (λ t. absurd (clash e t))
            h.path_alternating;
      black_root = plug-black_root (p ∷ path) n (λ q. cc) h.path_alternating;
    };
    same = refl;
  })

  -- A loose red node anywhere is repaired on the way to the root.
  pub insert1-Done :
      (n : Tree K V) (path : List (Step K V)) → IsLoose n path → Done (plug n path) (insert1 n path)
  unfolding insert1 insert2
  insert1-Done n [] h = record {
    root = turn_black n;
    returns = refl;
    balanced = record {
      even = turn_black-IsEven n h.even;
      alternating = turn_black-IsAlternating n h.alternating;
      black_root = turn_black-not_red n;
    };
    same = entries-turn_black n;
  }
  insert1-Done n (p ∷ []) h = elim (Bool-cases (step_red p)) [
    | inl e ↦ absurd (h.path_alternating.2 e)
    | inr e ↦ insert2-black_parent (λ t. none) n p [] h e
  ]
  insert1-Done n (p ∷ g ∷ path) h = elim (Bool-cases (step_red p)) [
    | inl e ↦ rw e (
        insert3_at (λ t. insert1 t path) n p g path e (h.path_alternating.2 e) h
          (λ m k. insert1-Done m path k))
    | inr e ↦ insert2-black_parent (λ t. insert1 t path) n p (g ∷ path) h e
  ]

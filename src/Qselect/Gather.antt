-- ===== src/Qselect/Gather.antt =====
-- Bringing the elements that are kept to the front neither loses nor repeats one.
use diagonal.Base.{
  ℕ, suc, ◌+◌, ◌≤◌, ◌<◌, ◌≡◌, refl, ap, ◌∙◌, subst, ◌&&◌, Bool, true, false, Option, some, List, [],
  ◌∷◌, arith, inl, inr, Bool-cases, All, length, if◌then◌else◌,
}
use diagonal.Qselect.{count_if, find, cons, gather}

abbrev bump : ℕ → Bool → ℕ
bump n b = if b then suc n else n

module _ {A : Type 0} where
  pub count_if-le : (p : A → Bool) (xs : List A) → count_if p xs ≤ length xs
  count_if-le p [] = omega arith
  count_if-le p (x ∷ xs) = elim (Bool-cases (p x)) [
    | inl h ↦ rw h (omega (arith, count_if-le p xs))
    | inr h ↦ rw h (omega (arith, count_if-le p xs))
  ]

  abbrev pub both : (A → Bool) → (A → Bool) → A → Bool
  both p q x = p x && q x

  pub count_if-both_zero :
      (p q : A → Bool) (xs : List A) → count_if q xs ≡ 0 → count_if (both p q) xs ≡ 0
  count_if-both_zero p q [] h = refl
  count_if-both_zero p q (x ∷ xs) h = elim (Bool-cases (q x)) [
    | inl k ↦ absurd (some_kept k)
    | inr k ↦
        let rest : count_if (both p q) xs ≡ 0 = count_if-both_zero p q xs (none_kept k) in
        elim (Bool-cases (p x)) [ inl j ↦ rw (j, k) rest | inr j ↦ rw j rest ]
  ]
    where
      some_kept : q x ≡ true → ⊥
      some_kept k =
          omega (arith, subst (λ b. (if b then suc (count_if q xs) else count_if q xs) ≡ 0) k h)

      none_kept : q x ≡ false → count_if q xs ≡ 0
      none_kept k = subst (λ b. (if b then suc (count_if q xs) else count_if q xs) ≡ 0) k h

  -- Among `xs` and `back`, as many are kept as `xs` has places.
  pub record Gathered (keep : A → Bool) (xs back : List A) (o : Option (List A)) : Type 1 where
    pub front : List A
    pub same : o ≡ some front
    pub length_front : length front ≡ length xs
    pub kept : All (λ x. keep x ≡ true) front
    pub counts :
        (p : A → Bool) → count_if p front ≡ count_if (both p keep) xs + count_if (both p keep) back
    pub holds : (P : A → Type 0) → All P xs → All P back → All P front

  record Found (keep : A → Bool) (back : List A) (o : Option (A × List A)) : Type 1 where
    pub it : A
    pub rest : List A
    pub is : o ≡ some (it, rest)
    pub is_kept : keep it ≡ true
    pub counted : (p : A → Bool) → count_if (both p keep) back ≡ count_if (both p keep) (it ∷ rest)
    pub one_less : count_if keep back ≡ suc (count_if keep rest)
    pub held : (P : A → Type 0) → All P back → P it × All P rest

  find-Found :
      (keep : A → Bool) (back : List A) → 0 < count_if keep back → Found keep back (find keep back)
  find-Found keep [] h = absurd (omega (arith, h))
  find-Found keep (y ∷ ys) h = elim (Bool-cases (keep y)) [
    | inl k ↦ record {
      it = y;
      rest = ys;
      is = rw k;
      is_kept = k;
      counted = λ p. refl;
      one_less = rw k;
      held = λ P a. a;
    }
    | inr k ↦
        let f =
          find-Found keep ys
            (subst (λ b. 0 < (if b then suc (count_if keep ys) else count_if keep ys)) k h) in
        record {
          it = f.it;
          rest = f.rest;
          is = rw k f.is;
          is_kept = f.is_kept;
          counted = λ p. skipped p k ∙ f.counted p;
          one_less = rw k f.one_less;
          held = λ P a. f.held P a.1;
        }
  ]
    where
      skipped :
          (p : A → Bool)
          → keep y ≡ false
          → count_if (both p keep) (y ∷ ys) ≡ count_if (both p keep) ys
      skipped p k = elim (Bool-cases (p y)) [ inl j ↦ rw (j, k) | inr j ↦ rw j ]

  count_kept :
      (keep p : A → Bool) (x : A) (xs : List A) (m n : ℕ)
      → keep x ≡ true
      → m ≡ count_if (both p keep) xs + n
      → (if p x then suc m else m) ≡ count_if (both p keep) (x ∷ xs) + n
  count_kept keep p x xs m n k e = elim (Bool-cases (p x)) [
    | inl j ↦ rw (j, k) (omega (arith, e))
    | inr j ↦ rw j (omega (arith, e))
  ]

  count_skipped :
      (keep p : A → Bool) (x : A) (xs : List A)
      → keep x ≡ false
      → count_if (both p keep) (x ∷ xs) ≡ count_if (both p keep) xs
  count_skipped keep p x xs k = elim (Bool-cases (p x)) [ inl j ↦ rw (j, k) | inr j ↦ rw j ]

  Gathered-kept :
      (keep : A → Bool) (x : A) (xs back : List A) (o : Option (List A))
      → keep x ≡ true
      → Gathered keep xs back o
      → Gathered keep (x ∷ xs) back (cons x o)
  Gathered-kept keep x xs back o k g = record {
    front = x ∷ g.front;
    same = ap (cons x) g.same;
    length_front = ap suc g.length_front;
    kept = (k, g.kept);
    counts = λ p. count_kept keep p x xs _ _ k (g.counts p);
    holds = λ P a b. (a.0, g.holds P a.1 b);
  }

  Gathered-Found :
      (keep : A → Bool) (x : A) (xs back : List A) (c : Option (A × List A)) (o : Option (List A))
      → keep x ≡ false
      → (f : Found keep back c) → Gathered keep xs f.rest o
      → Gathered keep (x ∷ xs) back (cons f.it o)
  Gathered-Found keep x xs back c o k f g = record {
    front = f.it ∷ g.front;
    same = ap (cons f.it) g.same;
    length_front = ap suc g.length_front;
    kept = (f.is_kept, g.kept);
    counts = λ p. omega (
      arith,
      f.counted p,
      count_skipped keep p x xs k,
      count_kept keep p f.it f.rest _ (count_if (both p keep) xs) f.is_kept (g.counts p ∙ swap _ _),
    );
    holds = λ P a b. let held = f.held P b in (held.0, g.holds P a.1 held.1);
  }
    where
      swap : (a b : ℕ) → a + b ≡ b + a
      swap a b = omega arith

  pub gather-Gathered :
      (keep : A → Bool) (xs back : List A)
      → count_if keep xs + count_if keep back ≡ length xs
      → Gathered keep xs back (gather keep xs back)
  unfolding gather
  gather-Gathered keep [] back h = record {
    front = [];
    same = refl;
    length_front = refl;
    kept = tt;
    counts = λ p. omega (arith, count_if-both_zero p keep back (omega (arith, h)));
    holds = λ P a b. tt;
  }
  gather-Gathered keep (x ∷ xs) back h = elim (Bool-cases (keep x)) [
    | inl k ↦
        let sum =
          subst (λ b. bump (count_if keep xs) b + count_if keep back ≡ suc (length xs)) k h in
        rw k (
          Gathered-kept keep x xs back (gather keep xs back) k
            (gather-Gathered keep xs back (omega (arith, sum))))
    | inr k ↦
        let sum =
          subst (λ b. bump (count_if keep xs) b + count_if keep back ≡ suc (length xs)) k h in
        let f = find-Found keep back (omega (arith, sum, count_if-le keep xs)) in
        rw (k, f.is)
          (Gathered-Found keep x xs back _ (gather keep xs f.rest) k f
            (gather-Gathered keep xs f.rest (omega (arith, sum, f.one_less))))
  ]

-- ===== src/Qselect/Rank.antt =====
-- `diag_qselect` returns the element that stands at its place in falling order.
use diagonal.Base.{
  ℕ, zero, suc, ◌+◌, ◌-◌, ◌≤◌, ◌<◌, ◌≡◌, refl, sym, ap, ◌∙◌, Bool, true, false, some, List, [], ◌∷◌,
  arith, lt→ltb, inl, inr, ◌⊎◌, Bool-cases, All, length, take, drop, ltb, leb, get_elem?,
}
use diagonal.Base.Order.{is_lt, is_eq, Ordering-cases, IsRanked}
use Prim.Native.Nat.Ordering.{lt, eq, gt}
use Prim.Native.Nat.{Ordering}
use diagonal.Qselect.{
  Selected, null, element, count_if, gather, after_pivot, before_pivot, partition_front, partition,
  qselect,
}
use diagonal.Qselect.Gather.{count_if-le, both, Gathered}
use diagonal.Qselect.Front.{
  is_lt_eq, is_gt_eq, count_if-take-drop, length-take_le, All-take, All-drop, elements,
  front-Gathered, count_if-ap,
}

module _ {A : Type 0} (cmp : A → A → Ordering) (ranked : IsRanked cmp) where
  abbrev level_with : A → A → Bool
  level_with p x = is_eq (cmp p x)

  -- At least `k` places from the front in falling order, and less than `k` without its equals.
  pub record IsAt (k : ℕ) (xs : List A) (x : A) : Type 0 where
    pub greater : count_if (after_pivot cmp x) xs ≤ k
    pub not_less : k < count_if (after_pivot cmp x) xs + count_if (λ y. is_eq (cmp x y)) xs

  count_if-three :
      (p : A) (q : A → Bool) (xs : List A)
      → count_if q xs
        ≡ count_if (both q (after_pivot cmp p)) xs
          + count_if (both q (level_with p)) xs
          + count_if (both q (before_pivot cmp p)) xs
  count_if-three p q [] = omega arith
  count_if-three p q (x ∷ xs) = elim (Bool-cases (q x)) [
    | inr h ↦ rw h (count_if-three p q xs)
    | inl h ↦ elim (Ordering-cases (cmp p x)) [
      | inl o ↦ rw (h, o) (omega (arith, count_if-three p q xs))
      | inr (inl o) ↦ rw (h, o) (omega (arith, count_if-three p q xs))
      | inr (inr o) ↦ rw (h, o) (omega (arith, count_if-three p q xs))
    ]
  ]

  cmp_self : (x : A) → cmp x x ≡ eq
  cmp_self x = ranked.cmp_rank x x ∙ ground arith

  -- An element before the pivot in the order of the array: the greater ones come first.
  module _ (p s : A) where
    after-after :
        cmp p s ≡ lt
        → (z : A) → both (after_pivot cmp s) (after_pivot cmp p) z ≡ after_pivot cmp s z
    after-after o z =
        ground (arith, o, ranked.cmp_rank s z, ranked.cmp_rank p z, ranked.cmp_rank p s)

    level-after :
        cmp p s ≡ lt → (z : A) → both (level_with s) (after_pivot cmp p) z ≡ level_with s z
    level-after o z =
        ground (arith, o, ranked.cmp_rank s z, ranked.cmp_rank p z, ranked.cmp_rank p s)

    above-after :
        cmp p s ≡ gt
        → (z : A) → both (after_pivot cmp s) (after_pivot cmp p) z ≡ after_pivot cmp p z
    above-after o z =
        ground (arith, o, ranked.cmp_rank s z, ranked.cmp_rank p z, ranked.cmp_rank p s)

    above-level :
        cmp p s ≡ gt → (z : A) → both (after_pivot cmp s) (level_with p) z ≡ level_with p z
    above-level o z =
        ground (arith, o, ranked.cmp_rank s z, ranked.cmp_rank p z, ranked.cmp_rank p s)

    level-before :
        cmp p s ≡ gt → (z : A) → both (level_with s) (before_pivot cmp p) z ≡ level_with s z
    level-before o z =
        ground (arith, o, ranked.cmp_rank s z, ranked.cmp_rank p z, ranked.cmp_rank p s)

  All-and : (P Q : A → Type 0) (xs : List A) → All P xs → All Q xs → All (λ x. P x × Q x) xs
  All-and P Q [] a b = tt
  All-and P Q (x ∷ xs) (p, a) (q, b) = ((p, q), All-and P Q xs a b)

  -- A result at place `k` of `base` for which `P` holds.
  record Selects (P : A → Type 0) (k : ℕ) (base : List A) (r : Selected A) : Type 0 where
    it : A
    is : r ≡ element it
    at : IsAt k base it
    of : P it

  count-front :
      (keep : A → Bool) (q : A → Bool) (xs : List A)
      → (g : Gathered keep
          (take (count_if keep xs) xs)
          (drop (count_if keep xs) xs)
          (gather keep (take (count_if keep xs) xs) (drop (count_if keep xs) xs)))
      → count_if q g.front ≡ count_if (both q keep) xs
  count-front keep q xs g = g.counts q ∙ count_if-take-drop (both q keep) (count_if keep xs) xs

  -- What the rounds on the front give, given what they do to a shorter array.
  front-Selects :
      (again : List A → Selected A) (keep : A → Bool) (xs : List A) (P : A → Type 0) (k : ℕ)
      → All P xs
      → ((front : List A)
          → length front ≡ count_if keep xs
          → (Q : A → Type 0) → All Q front
          → Selects Q k front (again front))
      → (s : A) × (partition_front cmp again keep (count_if keep xs) xs ≡ element s)
        × P s
        × (keep s ≡ true)
        × (count_if (both (after_pivot cmp s) keep) xs ≤ k)
        × (k < count_if (both (after_pivot cmp s) keep) xs + count_if (both (level_with s) keep) xs)
  unfolding partition_front
  front-Selects again keep xs P k all next =
      let g = front-Gathered keep xs in
      let n = count_if keep xs in
      let s =
        next g.front (g.length_front ∙ length-take_le n xs (count_if-le keep xs))
          (λ x. P x × (keep x ≡ true))
          (All-and P (λ x. keep x ≡ true) g.front
            (g.holds P (All-take P n xs all) (All-drop P n xs all)) g.kept) in
      (
        s.it,
        rw (g.same, partition_front) s.is,
        s.of.0,
        s.of.1,
        omega (arith, s.at.greater, count-front keep (after_pivot cmp s.it) xs g),
        omega (
          arith,
          s.at.not_less,
          count-front keep (after_pivot cmp s.it) xs g,
          count-front keep (level_with s.it) xs g,
        ),
      )

  abbrev after_count : A → List A → ℕ
  after_count p xs = count_if (after_pivot cmp p) xs

  abbrev level_count : A → List A → ℕ
  level_count p xs = count_if (level_with p) xs

  -- The pivot itself: nothing but it and its equals stands between.
  pivot-IsAt :
      (k : ℕ) (p : A) (xs : List A)
      → after_count p xs ≤ k
      → k < after_count p xs + (level_count p xs + 1)
      → IsAt k (p ∷ xs) p
  pivot-IsAt k p xs low high = record {
    greater = rw (cmp_self p) low;
    not_less = rw (cmp_self p) (omega (arith, high));
  }

  after-IsAt :
      (k : ℕ) (p s : A) (xs : List A)
      → cmp p s ≡ lt
      → count_if (both (after_pivot cmp s) (after_pivot cmp p)) xs ≤ k
      → k
        < count_if (both (after_pivot cmp s) (after_pivot cmp p)) xs
          + count_if (both (level_with s) (after_pivot cmp p)) xs
      → IsAt k (p ∷ xs) s
  after-IsAt k p s xs o low high =
      let other : cmp s p ≡ gt = ground (arith, o, ranked.cmp_rank s p, ranked.cmp_rank p s) in
      let same = count_if-ap _ _ xs (after-after p s o) in
      let level = count_if-ap _ _ xs (level-after p s o) in
      record {
        greater = rw other (omega (arith, low, same));
        not_less = rw other (omega (arith, high, same, level));
      }

  before-IsAt :
      (k : ℕ) (p s : A) (xs : List A)
      → cmp p s ≡ gt
      → after_count p xs
          + (level_count p xs + 1)
          + count_if (both (after_pivot cmp s) (before_pivot cmp p)) xs
        ≤ k
      → k
        < after_count p xs
          + (level_count p xs + 1)
          + (count_if (both (after_pivot cmp s) (before_pivot cmp p)) xs
              + count_if (both (level_with s) (before_pivot cmp p)) xs)
      → IsAt k (p ∷ xs) s
  before-IsAt k p s xs o low high =
      let other : cmp s p ≡ lt = ground (arith, o, ranked.cmp_rank s p, ranked.cmp_rank p s) in
      let three = count_if-three p (after_pivot cmp s) xs in
      let greater = count_if-ap _ _ xs (above-after p s o) in
      let equal = count_if-ap _ _ xs (above-level p s o) in
      let level = count_if-ap _ _ xs (level-before p s o) in
      record {
        greater = rw other (omega (arith, low, three, greater, equal));
        not_less = rw other (omega (arith, high, three, greater, equal, level));
      }

  -- The places in an array of the pivot and `xs`.
  places :
      (p : A) (xs : List A)
      → length xs ≡ after_count p xs + level_count p xs + count_if (before_pivot cmp p) xs
  places p xs = sym (count_all xs) ∙ count_if-three p (λ x. true) xs
    where
      count_all : (ys : List A) → count_if (λ x. true) ys ≡ length ys
      count_all [] = refl
      count_all (y ∷ ys) = ap suc (count_all ys)

  partition-Selects :
      (fuel : ℕ) (base : List A) (k : ℕ) (P : A → Type 0)
      → length base ≤ fuel
      → k < length base
      → All P base
      → Selects P k base (partition cmp fuel base k)
  unfolding partition
  partition-Selects zero base k P enough fits all = absurd (omega (arith, enough, fits))
  partition-Selects (suc fuel) [] k P enough fits all = absurd (omega (arith, fits))
  partition-Selects (suc fuel) (p ∷ []) k P enough fits all = record {
    it = p;
    is = rw (lt→ltb k 1 fits);
    at = pivot-IsAt k p [] (omega arith) (omega (arith, fits));
    of = all.0;
  }
  partition-Selects (suc fuel) (p ∷ x ∷ xs) k P enough fits all =
      let ys = x ∷ xs in
      let n_lt = after_count p ys in
      let n_gt = count_if (before_pivot cmp p) ys in
      let n_eq = length (p ∷ ys) - n_lt - n_gt in
      let sum = places p ys in
      let eqs : n_eq ≡ level_count p ys + 1 = omega (arith, sum) in
      let inside : leb (length (p ∷ ys)) k ≡ false = ground (arith, fits) in
      elim (Bool-cases (ltb k n_lt)) [
        | inl is_lt ↦
            let (s, is, of, kept, low, high) =
              front-Selects (λ front. partition cmp fuel front k) (after_pivot cmp p) ys P k all.1
                (λ front l Q a.
                  partition-Selects fuel front k Q
                    (omega (arith, l, enough, count_if-le (after_pivot cmp p) ys))
                    (ground (arith, l, is_lt)) a) in
            record {
              it = s;
              is = rw (inside, is_lt) is;
              at = after-IsAt k p s ys (is_lt_eq (cmp p s) kept) low high;
              of = of;
            }
        | inr not_lt ↦
            let low : n_lt ≤ k = ground (arith, not_lt) in
            elim (Bool-cases (leb (n_lt + n_eq) k)) [
              | inr here ↦ record {
                it = p;
                is = rw (inside, not_lt, here);
                at = pivot-IsAt k p ys low (ground (arith, here, eqs));
                of = all.0;
              }
              | inl past ↦
                  let high : n_lt + n_eq ≤ k = ground (arith, past) in
                  let k' = k - (n_lt + n_eq) in
                  let (s, is, of, kept, lower, higher) =
                    front-Selects (λ front. partition cmp fuel front k') (before_pivot cmp p) ys P
                      k' all.1
                      (λ front l Q a.
                        partition-Selects fuel front k' Q
                          (omega (arith, l, enough, count_if-le (before_pivot cmp p) ys))
                          (omega (arith, l, eqs, sum, fits, high)) a) in
                  record {
                    it = s;
                    is = rw (inside, not_lt, past) is;
                    at =
                        before-IsAt k p s ys (is_gt_eq (cmp p s) kept)
                          (omega (arith, lower, high, eqs)) (omega (arith, higher, high, eqs));
                    of = of;
                  }
            ]
      ]

  -- The element that `diag_qselect` returns is in the array, at most `k` elements are greater, and
  -- more than `k` are not less, so that it stands at place `k` in falling order; for `k` out of
  -- range the result is NULL.
  pub qselect-IsAt :
      (base : List A) (k : ℕ)
      → 0 < length base
      → ((k < length base)
          × (i : ℕ) × (x : A) × (get_elem? base i ≡ some x)
          × (qselect cmp base k ≡ element x)
          × IsAt k base x)
        ⊎ ((length base ≤ k) × (qselect cmp base k ≡ null))
  unfolding qselect
  qselect-IsAt [] k h = absurd (omega (arith, h))
  qselect-IsAt (x ∷ []) k h = elim (Bool-cases (leb 1 k)) [
    | inl past ↦ inr (ground (arith, past), rw past)
    | inr inside ↦
        let fits : k < 1 = ground (arith, inside) in
        inl (fits, 0, x, refl, rw inside, pivot-IsAt k x [] (omega arith) (omega (arith, fits)))
  ]
  qselect-IsAt (x ∷ y ∷ ys) k h = elim (Bool-cases (leb (length (x ∷ y ∷ ys)) k)) [
    | inl past ↦ inr (ground (arith, past), rw past)
    | inr inside ↦
        let base = x ∷ y ∷ ys in
        let fits : k < length base = ground (arith, inside) in
        let more : leb (length base) 1 ≡ false = ground arith in
        let s =
          partition-Selects (length base) base k (λ z. (i : ℕ) × (get_elem? base i ≡ some z))
            (omega arith) fits (elements base) in
        inl (fits, s.of.0, s.it, s.of.1, rw (inside, more) s.is, s.at)
  ]

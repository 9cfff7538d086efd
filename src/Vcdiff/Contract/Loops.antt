-- ===== src/Vcdiff/Contract/Loops.antt =====
-- The loops that compare the data with themselves.
use diagonal.Base.{
  ℕ, zero, suc, ◌+◌, ◌-◌, ◌≤◌, ◌<◌, ◌≡◌, refl, sym, ap, ◌∙◌, subst, Bool, true, false, some, List,
  arith, inl, inr, ◌⊎◌, Bool-cases, ◌==◌, length, get_elem?, get_elem?_of_lt,
}
use diagonal.Base.Word.{size_mod}
use diagonal.Vcdiff.Contract.{matches, back_loop, forward_loop}

module _ (bytes : List ℕ) where
  -- The bytes from `lo` to `hi` stand `m` places further on as well.
  abbrev pub Agree : ℕ → ℕ → ℕ → Type 0
  Agree m lo hi = (i : ℕ) → lo ≤ i → i < hi → get_elem? bytes i ≡ get_elem? bytes (m + i)

  pub Agree-join : (m lo mid hi : ℕ) → Agree m lo mid → Agree m mid hi → Agree m lo hi
  Agree-join m lo mid hi a b i h k = elim (split mid i) [
    | inl before ↦ a i h before
    | inr behind ↦ b i behind k
  ]
    where
      split : (c j : ℕ) → (j < c) ⊎ (c ≤ j)
      split c j = ground arith

  Agree-one : (m i : ℕ) → get_elem? bytes i ≡ get_elem? bytes (m + i) → Agree m i (suc i)
  Agree-one m i e j h k =
      let same : j ≡ i = omega arith in
      ap (get_elem? bytes) same
      ∙ e
      ∙ ap (get_elem? bytes) {x = m + i} {y = m + j} (omega (arith, same))

  -- The bytes at two indices, with the outcome of their comparison.
  record Compared (i j : ℕ) : Type 0 where
    left : ℕ
    right : ℕ
    at_left : get_elem? bytes i ≡ some left
    at_right : get_elem? bytes j ≡ some right
    outcome :
        (((left == right) ≡ true) × (get_elem? bytes i ≡ get_elem? bytes j))
        ⊎ ((left == right) ≡ false)

  compared : (i j : ℕ) → i < length bytes → j < length bytes → Compared i j
  compared i j h k =
      let (x, e) = get_elem?_of_lt bytes i h in
      let (y, e') = get_elem?_of_lt bytes j k in
      record {
        left = x;
        right = y;
        at_left = e;
        at_right = e';
        outcome = elim (Bool-cases (x == y)) [
          | inl same ↦
              let alike : x ≡ y = ground (arith, same) in inl (same, e ∙ ap some alike ∙ sym e')
          | inr other ↦ inr other
        ];
      }

  -- The comparison of two windows reads within the data and finds out whether they agree.
  pub matches-Agree :
      (m b n : ℕ)
      → m + b + n ≤ length bytes
      → (r : Bool) × (matches bytes (m + b) b n ≡ some r) × (r ≡ true → Agree m b (b + n))
  unfolding matches
  matches-Agree m b zero h = (true, refl, λ t i k l. absurd (omega (arith, k, l)))
  matches-Agree m b (suc n) h =
      let c = compared (m + b) b (omega (arith, h)) (omega (arith, h)) in
      let (r, e, agree) = matches-Agree m (b + 1) n (omega (arith, h)) in
      let next : m + (b + 1) ≡ m + b + 1 = omega arith in
      let e' = ap (λ k. matches bytes k (b + 1) n) (sym next) ∙ e in
      elim c.outcome [
        | inl (same, alike) ↦ (
          r,
          rw (c.at_left, c.at_right, same) e',
          λ t.
              Agree-join m b (b + 1) (b + suc n)
                (subst (Agree m b) {x = suc b} {y = b + 1} (omega arith)
                  (Agree-one m b (sym alike)))
                (subst (Agree m (b + 1)) {x = b + 1 + n} {y = b + suc n} (omega arith) (agree t)),
        )
        | inr other ↦ (false, rw (c.at_left, c.at_right, other), λ t. absurd (clash t))
      ]
    where
      clash : false ≡ true → ⊥
      clash t = cc

  -- Going back from `m + r`.
  pub back_loop-Agree :
      (m r : ℕ)
      → 0 < m
      → m + r ≤ length bytes
      → length bytes < size_mod
      → (lo : ℕ) × (back_loop bytes m r ≡ some (m + lo - 1)) × (lo ≤ r) × Agree m lo r
  unfolding back_loop
  back_loop-Agree m zero pos h fits =
      (0, ap some (omega (arith, pos, h, fits)), omega arith, λ i k l. absurd (omega (arith, l)))
  back_loop-Agree m (suc r) pos h fits =
      let c = compared r (m + r) (omega (arith, h)) (omega (arith, h)) in
      let (lo, e, le, agree) = back_loop-Agree m r pos (omega (arith, h)) fits in
      elim c.outcome [
        | inl (same, alike) ↦ (
          lo,
          rw (c.at_left, c.at_right, same) e,
          omega (arith, le),
          Agree-join m lo r (suc r) agree (Agree-one m r alike),
        )
        | inr other ↦ (
          suc r,
          rw (c.at_left, c.at_right, other) (ap some (omega arith)),
          omega arith,
          λ i k l. absurd (omega (arith, k, l)),
        )
      ]

  -- Going on from `m + i`.
  pub forward_loop-Agree :
      (m i n : ℕ)
      → m + i + n ≤ length bytes
      → (hi : ℕ) × (forward_loop bytes m (m + i) n ≡ some (m + hi))
        × (i ≤ hi)
        × (hi ≤ i + n)
        × Agree m i hi
  unfolding forward_loop
  forward_loop-Agree m i zero h =
      (i, refl, omega arith, omega arith, λ j k l. absurd (omega (arith, k, l)))
  forward_loop-Agree m i (suc n) h =
      let c = compared i (m + i) (omega (arith, h)) (omega (arith, h)) in
      let at_back = ap (get_elem? bytes) {x = m + i - m} {y = i} (omega arith) ∙ c.at_left in
      let (hi, e, le, within, agree) = forward_loop-Agree m (i + 1) n (omega (arith, h)) in
      let next : m + (i + 1) ≡ m + i + 1 = omega arith in
      let e' = ap (λ k. forward_loop bytes m k n) (sym next) ∙ e in
      elim c.outcome [
        | inl (same, alike) ↦ (
          hi,
          rw (at_back, c.at_right, same) e',
          omega (arith, le),
          omega (arith, within),
          Agree-join m i (i + 1) hi
              (subst (Agree m i) {x = suc i} {y = i + 1} (omega arith) (Agree-one m i alike)) agree,
        )
        | inr other ↦ (
          i,
          rw (at_back, c.at_right, other),
          omega arith,
          omega arith,
          λ j k l. absurd (omega (arith, k, l)),
        )
      ]

-- ===== src/Metric/Hamming/Laws.antt =====
-- The Hamming distance is a metric, and the bounded one agrees with it below its bound.
use diagonal.Base.{
  ℕ, zero, suc, ◌+◌, ◌-◌, ◌≤◌, ◌<◌, ◌≡◌, ◌↔◌, refl, ap₂, subst, ◌∙◌, Bool, true, false, Option,
  none, some, List, [], ◌∷◌, arith, ltb, leb, ◌==◌, ==_iff, ==_refl, if◌then◌else◌, length, inl,
  inr, Bool-cases, lt→ltb, le→ltb, ltb→lt, ltb→le,
}
use diagonal.Base.Int.{ℤ}
use diagonal.Metric.Hamming.{hamming_loop, hamming_chars, ehamming_loop, ehamming_chars}

-- The number of positions, up to the end of the longer string, at which the strings differ.
unfoldable pub distance : List ℕ → List ℕ → ℕ
distance [] ys = length ys
distance (x ∷ xs) [] = suc (length xs)
distance (x ∷ xs) (y ∷ ys) = (if x == y then 0 else 1) + distance xs ys

pub hamming_loop-distance : (xs ys : List ℕ) (d : ℕ) → hamming_loop xs ys d ≡ d + distance xs ys
unfolding hamming_loop distance
hamming_loop-distance [] ys d = refl
hamming_loop-distance (x ∷ xs) [] d = refl
hamming_loop-distance (x ∷ xs) (y ∷ ys) d = elim (Bool-cases (x == y)) [
  | inl e ↦ rw e (hamming_loop-distance xs ys d ∙ omega arith)
  | inr e ↦ rw e (hamming_loop-distance xs ys (d + 1) ∙ omega arith)
]

distance_comm : (xs ys : List ℕ) → distance xs ys ≡ distance ys xs
unfolding distance
distance_comm [] [] = refl
distance_comm [] (y ∷ ys) = refl
distance_comm (x ∷ xs) [] = refl
distance_comm (x ∷ xs) (y ∷ ys) = let rest = distance_comm xs ys in ground (arith, rest)

distance_zero : (xs ys : List ℕ) → distance xs ys ≡ 0 → xs ≡ ys
unfolding distance
distance_zero [] [] h = refl
distance_zero [] (y ∷ ys) h = absurd (omega arith)
distance_zero (x ∷ xs) [] h = absurd (omega arith)
distance_zero (x ∷ xs) (y ∷ ys) h = elim (Bool-cases (x == y)) [
  | inl e ↦
      let heads : x ≡ y = (==_iff x y).0 e in
      let tails : 0 + distance xs ys ≡ 0 = rw e at h in
      ap₂ (λ z zs. z ∷ zs) heads (distance_zero xs ys (omega arith))
  | inr e ↦ let big : 1 + distance xs ys ≡ 0 = rw e at h in absurd (omega arith)
]

distance_self : (xs : List ℕ) → distance xs xs ≡ 0
unfolding distance
distance_self [] = refl
distance_self (x ∷ xs) = rw (==_refl x) (omega (arith, distance_self xs))

-- The two bounds by the lengths that the ends of the strings need.
length-le-distance : (xs ys : List ℕ) → length ys ≤ length xs + distance xs ys
unfolding distance
length-le-distance [] ys = omega arith
length-le-distance (x ∷ xs) [] = omega arith
length-le-distance (x ∷ xs) (y ∷ ys) = omega (arith, length-le-distance xs ys)

distance-le : (xs ys : List ℕ) → distance xs ys ≤ length xs + length ys
unfolding distance
distance-le [] ys = omega arith
distance-le (x ∷ xs) [] = omega arith
distance-le (x ∷ xs) (y ∷ ys) = ground (arith, distance-le xs ys)

distance_triangle : (xs ys zs : List ℕ) → distance xs zs ≤ distance xs ys + distance ys zs
unfolding distance
distance_triangle [] ys zs = length-le-distance ys zs
distance_triangle (x ∷ xs) [] zs = distance-le (x ∷ xs) zs
distance_triangle (x ∷ xs) (y ∷ ys) [] =
    omega (arith, length-le-distance ys xs, distance_comm ys xs)
distance_triangle (x ∷ xs) (y ∷ ys) (z ∷ zs) = ground (arith, distance_triangle xs ys zs)

-- The test of the pointers and the loop compute that distance, which is a metric: 0 for the same
-- string and for no other, symmetric, and subject to the triangle inequality.
pub hamming_chars-distance :
    (same : Bool) (xs ys zs : List ℕ)
    → (same ≡ true → xs ≡ ys)
    → ((hamming_chars same xs ys ≡ 0) ↔ (xs ≡ ys))
      × (hamming_chars same xs ys ≡ hamming_chars false ys xs)
      × (hamming_chars false xs zs ≤ hamming_chars same xs ys + hamming_chars false ys zs)
unfolding hamming_chars
hamming_chars-distance same xs ys zs alias =
    let d = computed same xs ys alias in
    let s : hamming_loop ys xs 0 ≡ distance xs ys =
      hamming_loop-distance ys xs 0 ∙ omega (arith, distance_comm xs ys) in
    (
      (
        λ h. distance_zero xs ys (omega (arith, h, d)),
        λ e. d ∙ subst (λ t. distance xs t ≡ 0) e (distance_self xs),
      ),
      omega (arith, d, s),
      omega (
        arith,
        d,
        hamming_loop-distance xs zs 0,
        hamming_loop-distance ys zs 0,
        distance_triangle xs ys zs,
      ),
    )
  where
    computed :
        (same : Bool) (xs ys : List ℕ)
        → (same ≡ true → xs ≡ ys)
        → (if same then 0 else hamming_loop xs ys 0) ≡ distance xs ys
    computed true xs ys alias =
        subst (λ t. 0 ≡ distance xs t) (alias refl) (omega (arith, distance_self xs))
    computed false xs ys alias = hamming_loop-distance xs ys 0 ∙ omega arith

-- Differences before the end of the shorter string.
common : List ℕ → List ℕ → ℕ
common [] ys = 0
common (x ∷ xs) [] = 0
common (x ∷ xs) (y ∷ ys) = (if x == y then 0 else 1) + common xs ys

abbrev length_gap : List ℕ → List ℕ → ℕ
length_gap xs ys =
    if ltb (length xs) (length ys) then length ys - length xs else length xs - length ys

distance-common : (xs ys : List ℕ) → distance xs ys ≡ length_gap xs ys + common xs ys
unfolding distance common
distance-common [] [] = omega arith
distance-common [] (y ∷ ys) = ground arith
distance-common (x ∷ xs) [] = ground arith
distance-common (x ∷ xs) (y ∷ ys) = ground (arith, distance-common xs ys)

-- The value below the bound.
abbrev pub below : ℕ → ℕ → Option ℕ
below d e = if ltb d e then some d else none

ehamming_loop-below :
    (xs ys : List ℕ) (d e : ℕ)
    → d < e
    → ehamming_loop xs ys d (ℤ.pos e) ≡ below (d + common xs ys) e
unfolding ehamming_loop common
ehamming_loop-below [] ys d e h =
    let none_left : d + 0 ≡ d = omega arith in rw (none_left, lt→ltb d e h)
ehamming_loop-below (x ∷ xs) [] d e h =
    let none_left : d + 0 ≡ d = omega arith in rw (none_left, lt→ltb d e h)
ehamming_loop-below (x ∷ xs) (y ∷ ys) d e h = elim (Bool-cases (x == y)) [
  | inl same ↦
      let sum : d + (0 + common xs ys) ≡ d + common xs ys = omega arith in
      rw (same, lt→ltb d e h, sum) (ehamming_loop-below xs ys d e h)
  | inr differ ↦
      let sum : d + (1 + common xs ys) ≡ d + 1 + common xs ys = omega arith in
      rw (differ, sum)
        (elim (Bool-cases (ltb (d + 1) e)) [
          | inl more ↦ rw more (ehamming_loop-below xs ys (d + 1) e (ltb→lt _ _ more))
          | inr last ↦ rw (last, le→ltb (d + 1 + common xs ys) e (omega (arith, ltb→le _ _ last)))
        ])
]

-- For a bound that is not negative, the bounded distance is the distance if that is below the bound,
-- and -1 if it is not: stopping early loses nothing.
pub ehamming_chars-hamming_chars :
    (same : Bool) (xs ys : List ℕ) (e : ℕ)
    → ehamming_chars same xs ys (ℤ.pos e) ≡ below (hamming_chars same xs ys) e
unfolding ehamming_chars hamming_chars
ehamming_chars-hamming_chars same xs ys zero =
    rw (le→ltb (hamming_chars same xs ys) 0 (omega arith))
ehamming_chars-hamming_chars true xs ys (suc e) =
    let bound : (suc e == 0) ≡ false = ground arith in rw (bound, lt→ltb 0 (suc e) (omega arith))
ehamming_chars-hamming_chars false xs ys (suc e) =
    let bound : (suc e == 0) ≡ false = ground arith in
    let whole : hamming_loop xs ys 0 ≡ length_gap xs ys + common xs ys =
      hamming_loop-distance xs ys 0 ∙ omega (arith, distance-common xs ys) in
    elim (Bool-cases (leb (suc e) (length_gap xs ys))) [
      | inl far ↦
          let over : suc e ≤ length_gap xs ys = ground arith in
          rw (bound, far, whole, le→ltb (length_gap xs ys + common xs ys) (suc e) (omega arith))
      | inr near ↦
          let under : length_gap xs ys < suc e = ground arith in
          rw (bound, near, whole) (ehamming_loop-below xs ys (length_gap xs ys) (suc e) under)
    ]

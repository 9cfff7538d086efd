-- ===== src/Metric/Levenshtein/Distance.antt =====
-- The distance by recursion on the first characters, and its laws.
use diagonal.Base.{ℕ, ◌+◌, ◌≤◌, ◌≡◌, refl, sym, List, [], ◌∷◌, arith, length, min}
use diagonal.Metric.Levenshtein.{cost}

abbrev pub distance : List ℕ → List ℕ → ℕ
distance [] ys = length ys
distance (x ∷ xs) [] = length (x ∷ xs)
distance (x ∷ xs) (y ∷ ys) =
    min (min (distance (x ∷ xs) ys + 1) (distance xs (y ∷ ys) + 1)) (distance xs ys + cost x y)

pub cost-le : (x y : ℕ) → cost x y ≤ 1
cost-le x y = ground arith

cost_comm : (x y : ℕ) → cost x y ≡ cost y x
cost_comm x y = ground arith

pub cost_self : (x : ℕ) → cost x x ≡ 0
cost_self x = ground arith

pub distance-nil : (xs : List ℕ) → distance xs [] ≡ length xs
distance-nil [] = refl
distance-nil (x ∷ xs) = refl

pub distance_comm : (xs ys : List ℕ) → distance xs ys ≡ distance ys xs
distance_comm [] ys = sym (distance-nil ys)
distance_comm (x ∷ xs) [] = refl
distance_comm (x ∷ xs) (y ∷ ys) = omega (
  arith,
  distance_comm (x ∷ xs) ys,
  distance_comm xs (y ∷ ys),
  distance_comm xs ys,
  cost_comm x y,
)

pub distance-insert : (y : ℕ) (xs ys : List ℕ) → distance xs (y ∷ ys) ≤ distance xs ys + 1
distance-insert y [] ys = omega arith
distance-insert y (x ∷ xs) ys = omega arith

pub distance-delete : (x : ℕ) (xs ys : List ℕ) → distance (x ∷ xs) ys ≤ distance xs ys + 1
distance-delete x xs [] = omega (arith, distance-nil xs)
distance-delete x xs (y ∷ ys) = omega arith

distance-le_insert : (y : ℕ) (xs ys : List ℕ) → distance xs ys ≤ distance xs (y ∷ ys) + 1
distance-le_insert y [] ys = omega arith
distance-le_insert y (x ∷ xs) ys =
    omega (arith, distance-delete x xs ys, distance-le_insert y xs ys)

distance-le_delete : (x : ℕ) (xs ys : List ℕ) → distance xs ys ≤ distance (x ∷ xs) ys + 1
distance-le_delete x xs ys =
    omega (arith, distance_comm xs ys, distance_comm (x ∷ xs) ys, distance-le_insert x ys xs)

pub distance-same : (x : ℕ) (xs ys : List ℕ) → distance (x ∷ xs) (x ∷ ys) ≡ distance xs ys
distance-same x xs ys =
    omega (arith, cost_self x, distance-le_delete x xs ys, distance-le_insert x xs ys)

-- At least the difference of the lengths.
pub distance-length :
    (xs ys : List ℕ)
    → (length xs ≤ distance xs ys + length ys) × (length ys ≤ distance xs ys + length xs)
distance-length [] ys = (omega arith, omega arith)
distance-length (x ∷ xs) [] = (omega arith, omega arith)
distance-length (x ∷ xs) (y ∷ ys) =
    let a = distance-length (x ∷ xs) ys in
    let b = distance-length xs (y ∷ ys) in
    let c = distance-length xs ys in (omega (arith, a.0, b.0, c.0), omega (arith, a.1, b.1, c.1))

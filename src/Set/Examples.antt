-- ===== src/Set/Examples.antt =====
-- A search and a sort of lists of numbers that do what the C library promises, and instances.
use diagonal.Base.{
  ℕ, suc, ◌+◌, ◌≤◌, ◌≡◌, refl, sym, ap, ◌∙◌, subst, ◌⊎◌, Bool, true, false, Option, none, some,
  List, [], ◌∷◌, arith, ◌==◌, leb, ◌||◌, ◌&&◌, not, if◌then◌else◌, length, get_elem?, All, inl, inr,
  Bool-cases, Option-cases,
}
use diagonal.Base.Order.{IsRanked}
use Prim.Native.Nat.Ordering.{eq}
use Prim.Native.Nat.{compare}
use diagonal.Qselect.{count_if}
use diagonal.Set.{DiagSet, Library, set_contains, set_insert, set_erase}
use diagonal.Set.Occurs.{occurs, same, bit, IsOrdered, IsLibrary, IsSetOf}
use diagonal.Set.Insert.{set_insert-contains}
use diagonal.Set.Erase.{set_erase-contains}

by_number : IsRanked compare
by_number = record { rank = λ n. n; cmp_rank = λ a b. refl }

abbrev later : Option ℕ → Option ℕ
later none = none
later (some i) = some (suc i)

abbrev search_number : ℕ → List ℕ → Option ℕ
search_number x [] = none
search_number x (y ∷ ys) = if x == y then some 0 else later (search_number x ys)

abbrev put_number : ℕ → List ℕ → List ℕ
put_number x [] = x ∷ []
put_number x (y ∷ ys) = if leb x y then x ∷ y ∷ ys else y ∷ put_number x ys

abbrev sort_numbers : List ℕ → List ℕ
sort_numbers [] = []
sort_numbers (x ∷ xs) = put_number x (sort_numbers xs)

abbrev numbers : Library ℕ
numbers = record { bsearch = search_number; qsort = sort_numbers }

none-some : (i : ℕ) → ◌≡◌ {A = Option ℕ} none (some i) → ⊥
none-some i q = cc

some-injective : (i j : ℕ) → ◌≡◌ {A = Option ℕ} (some i) (some j) → i ≡ j
some-injective i j q = cc

search_number-finds :
    (x : ℕ) (xs : List ℕ) (i : ℕ)
    → search_number x xs ≡ some i
    → (y : ℕ) × (get_elem? xs i ≡ some y) × (compare x y ≡ eq)
search_number-finds x [] i h = absurd (none-some i h)
search_number-finds x (y ∷ ys) i h = elim (Bool-cases (x == y)) [
  | inl k ↦
      let first =
        some-injective 0 i
          (subst (λ b. (if b then some 0 else later (search_number x ys)) ≡ some i) k h) in
      (y, ap (get_elem? (y ∷ ys)) (sym first), ground (arith, k))
  | inr k ↦
      let behind = subst (λ b. (if b then some 0 else later (search_number x ys)) ≡ some i) k h in
      elim (Option-cases (search_number x ys)) [
        | inl q ↦ absurd (none-some i (sym (ap later q) ∙ behind))
        | inr (j, q) ↦
            let next = some-injective (suc j) i (sym (ap later q) ∙ behind) in
            let (z, at, e) = search_number-finds x ys j q in
            (z, ap (get_elem? (y ∷ ys)) (sym next) ∙ at, e)
      ]
]

search_number-misses : (x : ℕ) (xs : List ℕ) → search_number x xs ≡ none → occurs compare x xs ≡ 0
search_number-misses x [] h = refl
search_number-misses x (y ∷ ys) h = elim (Bool-cases (x == y)) [
  | inl k ↦ absurd (
      none-some 0
        (sym (subst (λ b. (if b then some 0 else later (search_number x ys)) ≡ none) k h)))
  | inr k ↦
      let behind = subst (λ b. (if b then some 0 else later (search_number x ys)) ≡ none) k h in
      let other : same compare x y ≡ false = ground (arith, k) in
      elim (Option-cases (search_number x ys)) [
        | inl q ↦ rw other (search_number-misses x ys q)
        | inr (j, q) ↦ absurd (none-some (suc j) (sym (sym (ap later q) ∙ behind)))
      ]
]

put_number-All :
    (n x : ℕ) (xs : List ℕ) → n ≤ x → All (λ y. n ≤ y) xs → All (λ y. n ≤ y) (put_number x xs)
put_number-All n x [] h a = (h, tt)
put_number-All n x (y ∷ ys) h (b, a) = elim (Bool-cases (leb x y)) [
  | inl k ↦ rw k (h, (b, a))
  | inr k ↦ rw k (b, put_number-All n x ys h a)
]

All-le : (m n : ℕ) (xs : List ℕ) → m ≤ n → All (λ y. n ≤ y) xs → All (λ y. m ≤ y) xs
All-le m n [] h a = tt
All-le m n (x ∷ xs) h (b, a) = (omega arith, All-le m n xs h a)

put_number-IsOrdered :
    (x : ℕ) (xs : List ℕ)
    → IsOrdered compare by_number xs
    → IsOrdered compare by_number (put_number x xs)
unfolding by_number
put_number-IsOrdered x [] o = (tt, tt)
put_number-IsOrdered x (y ∷ ys) (h, o) = elim (Bool-cases (leb x y)) [
  | inl k ↦ let le : x ≤ y = ground (arith, k) in rw k ((le, All-le x y ys le h), (h, o))
  | inr k ↦
      let le : y ≤ x = ground (arith, k) in
      rw k (put_number-All y x ys le h, put_number-IsOrdered x ys o)
]

sort_numbers-IsOrdered : (xs : List ℕ) → IsOrdered compare by_number (sort_numbers xs)
sort_numbers-IsOrdered [] = tt
sort_numbers-IsOrdered (x ∷ xs) =
    put_number-IsOrdered x (sort_numbers xs) (sort_numbers-IsOrdered xs)

count_if-put_number :
    (p : ℕ → Bool) (x : ℕ) (xs : List ℕ) → count_if p (put_number x xs) ≡ count_if p (x ∷ xs)
count_if-put_number p x [] = refl
count_if-put_number p x (y ∷ ys) = elim (Bool-cases (leb x y)) [
  | inl k ↦ rw k
  | inr k ↦ rw k (swapped (count_if-put_number p x ys) (Bool-cases (p x)) (Bool-cases (p y)))
]
  where
    swapped :
        count_if p (put_number x ys) ≡ count_if p (x ∷ ys)
        → (p x ≡ true) ⊎ (p x ≡ false)
        → (p y ≡ true) ⊎ (p y ≡ false)
        → count_if p (y ∷ put_number x ys) ≡ count_if p (x ∷ y ∷ ys)
    swapped e (inl a) (inl b) = rw b (ap suc e ∙ rw a)
    swapped e (inl a) (inr b) = rw b e
    swapped e (inr a) (inl b) = rw b (ap suc e ∙ rw a)
    swapped e (inr a) (inr b) = rw b e

count_if-sort_numbers : (p : ℕ → Bool) (xs : List ℕ) → count_if p (sort_numbers xs) ≡ count_if p xs
count_if-sort_numbers p [] = refl
count_if-sort_numbers p (x ∷ xs) =
    count_if-put_number p x (sort_numbers xs)
    ∙ ap (λ n. if p x then suc n else n) (count_if-sort_numbers p xs)

length-put_number : (x : ℕ) (xs : List ℕ) → length (put_number x xs) ≡ length xs + 1
length-put_number x [] = omega arith
length-put_number x (y ∷ ys) = elim (Bool-cases (leb x y)) [
  | inl k ↦ rw k (omega arith)
  | inr k ↦ rw k (omega (arith, length-put_number x ys))
]

length-sort_numbers : (xs : List ℕ) → length (sort_numbers xs) ≡ length xs
length-sort_numbers [] = refl
length-sort_numbers (x ∷ xs) =
    omega (arith, length-put_number x (sort_numbers xs), length-sort_numbers xs)

numbers-IsLibrary : IsLibrary compare by_number numbers
numbers-IsLibrary = record {
  finds = λ x xs i o h. search_number-finds x xs i h;
  misses = λ x xs o h. search_number-misses x xs h;
  orders = sort_numbers-IsOrdered;
  keeps = count_if-sort_numbers;
  length-qsort = length-sort_numbers;
}

abbrev some_numbers : DiagSet ℕ
some_numbers = record { size = 2; arr = 3 ∷ 8 ∷ [] }

some_numbers-IsSetOf : IsSetOf compare by_number numbers some_numbers
unfolding by_number
some_numbers-IsSetOf = record {
  sized = refl;
  ordered = ((omega arith, tt), (tt, tt));
  once = λ x. ground arith;
}

set_insert-contains_example :
    IsSetOf compare by_number numbers (set_insert numbers some_numbers 5).0
    × ((y : ℕ)
        → set_contains numbers (set_insert numbers some_numbers 5).0 y
          ≡ same compare y 5 || set_contains numbers some_numbers y)
set_insert-contains_example =
    set_insert-contains compare by_number numbers numbers-IsLibrary some_numbers 5
      some_numbers-IsSetOf (omega arith)

set_erase-contains_example :
    IsSetOf compare by_number numbers (set_erase numbers some_numbers 8).0
    × ((y : ℕ)
        → set_contains numbers (set_erase numbers some_numbers 8).0 y
          ≡ set_contains numbers some_numbers y && not (same compare y 8))
    × ((set_erase numbers some_numbers 8).1 ≡ bit (set_contains numbers some_numbers 8))
set_erase-contains_example =
    set_erase-contains compare by_number numbers numbers-IsLibrary some_numbers 8
      some_numbers-IsSetOf (omega arith)

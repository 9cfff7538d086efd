-- ===== src/Set/Occurs.antt =====
-- How often elements occur in the array of a set, and what a set is.
use diagonal.Base.{
  ℕ, zero, suc, ◌+◌, ◌≤◌, ◌<◌, ◌≡◌, refl, sym, ap, subst, ◌∙◌, Bool, true, false, Option, none,
  some, List, [], ◌∷◌, ◌++◌, arith, ◌==◌, ltb, ◌||◌, ◌&&◌, not, if◌then◌else◌, length, get_elem?,
  All, inl, inr, Bool-cases, Option-cases,
}
use diagonal.Base.Order.{is_eq, IsRanked, Ordering-cases}
use Prim.Native.Nat.Ordering.{eq}
use Prim.Native.Nat.{Ordering}
use diagonal.Qselect.{count_if}
use diagonal.Set.{DiagSet, Library, set_contains}

pub is_eq-eq : (o : Ordering) → is_eq o ≡ true → o ≡ eq
is_eq-eq o h = elim (Ordering-cases o) [
  | inl e ↦ absurd (differ (sym (ap is_eq e) ∙ h))
  | inr (inl e) ↦ e
  | inr (inr e) ↦ absurd (differ (sym (ap is_eq e) ∙ h))
]
  where
    differ : false ≡ true → ⊥
    differ e = cc

abbrev pub bit : Bool → ℕ
bit b = if b then 1 else 0

pub bool_added : (n : ℕ) (b : Bool) → ltb 0 (n + bit b) ≡ b || ltb 0 n
bool_added n b = elim (Bool-cases b) [ inl h ↦ rw h (ground arith) | inr h ↦ rw h (ground arith) ]

pub bool_dropped : (m n : ℕ) (b : Bool) → m ≡ n + bit b → m ≤ 1 → ltb 0 n ≡ ltb 0 m && not b
bool_dropped m n b e h = elim (Bool-cases b) [
  | inl k ↦
      let sum : m ≡ n + 1 = subst (λ c. m ≡ n + bit c) k e in
      let none_left : n ≡ 0 = omega (arith, sum, h) in rw (k, none_left) (ground arith)
  | inr k ↦
      let sum : m ≡ n + 0 = subst (λ c. m ≡ n + bit c) k e in
      let all_left : m ≡ n = omega (arith, sum) in rw (k, all_left) (ground arith)
]

module _ {A : Type 0} where
  pub count_if-append :
      (p : A → Bool) (xs ys : List A) → count_if p (xs ++ ys) ≡ count_if p xs + count_if p ys
  count_if-append p [] ys = omega arith
  count_if-append p (x ∷ xs) ys = elim (Bool-cases (p x)) [
    | inl h ↦ rw h (omega (arith, count_if-append p xs ys))
    | inr h ↦ rw h (count_if-append p xs ys)
  ]

  pub count_if-le : (p : A → Bool) (xs : List A) → count_if p xs ≤ length xs
  count_if-le p [] = omega arith
  count_if-le p (x ∷ xs) = elim (Bool-cases (p x)) [
    | inl h ↦ rw h (omega (arith, count_if-le p xs))
    | inr h ↦ rw h (omega (arith, count_if-le p xs))
  ]

  pub count_if-same :
      (p q : A → Bool) (xs : List A) → ((x : A) → p x ≡ q x) → count_if p xs ≡ count_if q xs
  count_if-same p q [] h = refl
  count_if-same p q (x ∷ xs) h = rw (h x, count_if-same p q xs h)

module _ {A : Type 0} (cmp : A → A → Ordering) where
  abbrev pub same : A → A → Bool
  same x y = is_eq (cmp x y)

  -- How often an element equal to `x` occurs.
  abbrev pub occurs : A → List A → ℕ
  occurs x xs = count_if (same x) xs

  pub occurs-one : (y x : A) → occurs y (x ∷ []) ≡ bit (same y x)
  occurs-one y x = elim (Bool-cases (same y x)) [ inl h ↦ rw h | inr h ↦ rw h ]

module _ {A : Type 0} (cmp : A → A → Ordering) (ranked : IsRanked cmp) where
  abbrev pub IsOrdered : List A → Type 0
  IsOrdered [] = Unit
  IsOrdered (x ∷ xs) = All (λ y. ranked.rank x ≤ ranked.rank y) xs × IsOrdered xs

  pub occurs-same : (x y : A) (xs : List A) → cmp x y ≡ eq → occurs cmp x xs ≡ occurs cmp y xs
  occurs-same x y xs e =
      count_if-same (same cmp x) (same cmp y) xs
        (λ z. ground (arith, e, ranked.cmp_rank x y, ranked.cmp_rank x z, ranked.cmp_rank y z))

  pub occurs_pos :
      (x y : A) (xs : List A) (i : ℕ) → get_elem? xs i ≡ some y → cmp x y ≡ eq → 0 < occurs cmp x xs
  occurs_pos x y [] i h e = absurd (none-some h)
    where
      none-some : ◌≡◌ {A = Option A} none (some y) → ⊥
      none-some q = cc
  occurs_pos x y (z ∷ xs) zero h e =
      let k : same cmp x z ≡ true = ap (λ w. is_eq (cmp x w)) (some-injective z y h) ∙ ap is_eq e in
      rw k (omega arith)
    where
      some-injective : (a b : A) → some a ≡ some b → a ≡ b
      some-injective a b q = cc
  occurs_pos x y (z ∷ xs) (suc i) h e = elim (Bool-cases (same cmp x z)) [
    | inl k ↦ rw k (omega arith)
    | inr k ↦ rw k (occurs_pos x y xs i h e)
  ]

  -- A new element makes a set of an ordered array that lacks it.
  pub occurs_le :
      (xs ys : List A) (x : A)
      → ((y : A) → occurs cmp y xs ≤ 1)
      → occurs cmp x xs ≡ 0
      → ((y : A) → occurs cmp y ys ≡ occurs cmp y xs + bit (same cmp y x))
      → (y : A) → occurs cmp y ys ≤ 1
  occurs_le xs ys x once lacks adds y = elim (Bool-cases (same cmp y x)) [
    | inl h ↦
        let e : occurs cmp y xs ≡ 0 = occurs-same y x xs (is_eq-eq (cmp y x) h) ∙ lacks in
        omega (arith, e, adds y, ap bit h)
    | inr h ↦ omega (arith, once y, adds y, ap bit h)
  ]

module _ {A : Type 0} (cmp : A → A → Ordering) (ranked : IsRanked cmp) (lib : Library A) where
  -- What the C library promises: `bsearch` finds an equal element of an ordered array if there is
  -- one, and `qsort` orders an array and keeps its elements.
  pub record IsLibrary : Type 0 where
    pub finds :
        (x : A) (xs : List A) (i : ℕ)
        → IsOrdered cmp ranked xs
        → lib.bsearch x xs ≡ some i
        → (y : A) × (get_elem? xs i ≡ some y) × (cmp x y ≡ eq)
    pub misses :
        (x : A) (xs : List A)
        → IsOrdered cmp ranked xs
        → lib.bsearch x xs ≡ none
        → occurs cmp x xs ≡ 0
    pub orders : (xs : List A) → IsOrdered cmp ranked (lib.qsort xs)
    pub keeps : (p : A → Bool) (xs : List A) → count_if p (lib.qsort xs) ≡ count_if p xs
    pub length-qsort : (xs : List A) → length (lib.qsort xs) ≡ length xs

  -- The array is ordered and holds no two equal elements.
  pub record IsSetOf (s : DiagSet A) : Type 0 where
    pub sized : s.size ≡ length s.arr
    pub ordered : IsOrdered cmp ranked s.arr
    pub once : (x : A) → occurs cmp x s.arr ≤ 1

  -- What `diag_set_contains` says.
  pub contains-occurs :
      (s : DiagSet A) (x : A)
      → IsLibrary
      → IsSetOf s
      → set_contains lib s x ≡ ltb 0 (occurs cmp x s.arr)
  unfolding set_contains
  contains-occurs s x l v = elim (Bool-cases (s.size == 0)) [
    | inl empty ↦
        let h : occurs cmp x s.arr ≡ 0 =
          ground (arith, count_if-le (same cmp x) s.arr, v.sized, empty) in
        rw (empty, h) (ground arith)
    | inr more ↦ elim (Option-cases (lib.bsearch x s.arr)) [
      | inl missed ↦
          let h = l.misses x s.arr v.ordered missed in rw (more, missed, h) (ground arith)
      | inr (i, found) ↦
          let (y, at, e) = l.finds x s.arr i v.ordered found in
          let h = occurs_pos cmp ranked x y s.arr i at e in rw (more, found) (ground (arith, h))
    ]
  ]

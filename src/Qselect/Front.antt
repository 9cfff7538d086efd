-- ===== src/Qselect/Front.antt =====
-- The front that a round of `diag_qselect` leaves, and lists of which elements are counted.
use diagonal.Base.{
  ℕ, zero, suc, ◌+◌, ◌≤◌, ◌≡◌, refl, sym, ap, ◌∙◌, Bool, true, false, some, List, [], ◌∷◌, arith,
  inl, inr, Bool-cases, All, length, take, drop, get_elem?,
}
use diagonal.Base.Order.{is_lt, is_gt, Ordering-cases}
use Prim.Native.Nat.Ordering.{lt, gt}
use Prim.Native.Nat.{Ordering}
use diagonal.Qselect.{count_if, gather}
use diagonal.Qselect.Gather.{count_if-le, Gathered, gather-Gathered}

pub is_lt_eq : (o : Ordering) → is_lt o ≡ true → o ≡ lt
is_lt_eq o h = elim (Ordering-cases o) [
  | inl e ↦ e
  | inr (inl e) ↦ absurd (differ (sym (ap is_lt e) ∙ h))
  | inr (inr e) ↦ absurd (differ (sym (ap is_lt e) ∙ h))
]
  where
    differ : false ≡ true → ⊥
    differ e = cc

pub is_gt_eq : (o : Ordering) → is_gt o ≡ true → o ≡ gt
is_gt_eq o h = elim (Ordering-cases o) [
  | inl e ↦ absurd (differ (sym (ap is_gt e) ∙ h))
  | inr (inl e) ↦ absurd (differ (sym (ap is_gt e) ∙ h))
  | inr (inr e) ↦ e
]
  where
    differ : false ≡ true → ⊥
    differ e = cc

module _ {A : Type 0} where
  pub count_if-take-drop :
      (p : A → Bool) (n : ℕ) (xs : List A)
      → count_if p (take n xs) + count_if p (drop n xs) ≡ count_if p xs
  count_if-take-drop p zero xs = omega arith
  count_if-take-drop p (suc n) [] = omega arith
  count_if-take-drop p (suc n) (x ∷ xs) = elim (Bool-cases (p x)) [
    | inl h ↦ rw h (omega (arith, count_if-take-drop p n xs))
    | inr h ↦ rw h (count_if-take-drop p n xs)
  ]

  pub length-take_le : (n : ℕ) (xs : List A) → n ≤ length xs → length (take n xs) ≡ n
  length-take_le zero xs h = refl
  length-take_le (suc n) [] h = omega (arith, h)
  length-take_le (suc n) (x ∷ xs) h = ap suc (length-take_le n xs (omega (arith, h)))

  pub All-take : (P : A → Type 0) (n : ℕ) (xs : List A) → All P xs → All P (take n xs)
  All-take P zero xs a = tt
  All-take P (suc n) [] a = tt
  All-take P (suc n) (x ∷ xs) (b, a) = (b, All-take P n xs a)

  pub All-drop : (P : A → Type 0) (n : ℕ) (xs : List A) → All P xs → All P (drop n xs)
  All-drop P zero xs a = a
  All-drop P (suc n) [] a = a
  All-drop P (suc n) (x ∷ xs) (b, a) = All-drop P n xs a

  -- Every element has an index.
  pub elements : (xs : List A) → All (λ z. (i : ℕ) × (get_elem? xs i ≡ some z)) xs
  elements [] = tt
  elements (x ∷ xs) = ((0, refl), shift xs (elements xs))
    where
      shift :
          (ys : List A)
          → All (λ z. (i : ℕ) × (get_elem? xs i ≡ some z)) ys
          → All (λ z. (i : ℕ) × (get_elem? (x ∷ xs) i ≡ some z)) ys
      shift [] a = tt
      shift (y ∷ ys) ((i, h), a) = ((suc i, h), shift ys a)

  -- The front that a round leaves holds just the elements that it keeps.
  pub front-Gathered :
      (keep : A → Bool) (xs : List A)
      → Gathered keep
          (take (count_if keep xs) xs)
          (drop (count_if keep xs) xs)
          (gather keep (take (count_if keep xs) xs) (drop (count_if keep xs) xs))
  front-Gathered keep xs = gather-Gathered keep _ _ (
      count_if-take-drop keep (count_if keep xs) xs
      ∙ sym (length-take_le (count_if keep xs) xs (count_if-le keep xs)))

  pub count_if-ap :
      (p q : A → Bool) (xs : List A) → ((x : A) → p x ≡ q x) → count_if p xs ≡ count_if q xs
  count_if-ap p q [] h = refl
  count_if-ap p q (x ∷ xs) h = rw (h x, count_if-ap p q xs h)

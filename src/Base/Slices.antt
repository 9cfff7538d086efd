-- ===== src/Base/Slices.antt =====
-- Laws of `take`, `drop` and `++`, for code that copies ranges of bytes.
use Prim.Native.Nat.{ℕ, zero, suc, ◌+◌, ◌≤◌}
use mathlib.Core.Path.{◌≡◌, refl, sym, ap, ◌∙◌}
use mathlib.Core.List.{List, [], ◌∷◌, ◌++◌}
use mathlib.Core.Option.{some}
use native.Mathlib.Omega.{arith}
use diagonal.Base.Lists.{
  length, get_elem?, set, take, drop, length-append, length-take, length-drop,
}

module _ {ℓ} {A : Type ℓ} where
  -- The `n` elements from index `at` on.
  abbrev pub slice : List A → ℕ → ℕ → List A
  slice xs at n = take n (drop at xs)

  -- `ys` written over `xs` from index `at` on, as `memmove` does.
  abbrev pub overwrite : List A → ℕ → List A → List A
  overwrite xs at ys = take at xs ++ (ys ++ drop (length ys) (drop at xs))

  pub take-append-drop : (n : ℕ) (xs : List A) → take n xs ++ drop n xs ≡ xs
  take-append-drop zero xs = refl
  take-append-drop (suc n) [] = refl
  take-append-drop (suc n) (x ∷ xs) = ap (λ t. x ∷ t) (take-append-drop n xs)

  pub take_all : (xs : List A) (n : ℕ) → length xs ≤ n → take n xs ≡ xs
  take_all [] zero h = refl
  take_all [] (suc n) h = refl
  take_all (x ∷ xs) zero h = elim h [ ]
  take_all (x ∷ xs) (suc n) h = ap (λ t. x ∷ t) (take_all xs n (omega arith))

  pub drop_all : (xs : List A) (n : ℕ) → length xs ≤ n → drop n xs ≡ []
  drop_all [] zero h = refl
  drop_all [] (suc n) h = refl
  drop_all (x ∷ xs) zero h = elim h [ ]
  drop_all (x ∷ xs) (suc n) h = drop_all xs n (omega arith)

  pub take-append_left : (xs ys : List A) (n : ℕ) → n ≡ length xs → take n (xs ++ ys) ≡ xs
  take-append_left [] ys zero h = refl
  take-append_left [] ys (suc n) h = absurd (omega arith)
  take-append_left (x ∷ xs) ys zero h = absurd (omega arith)
  take-append_left (x ∷ xs) ys (suc n) h = ap (λ t. x ∷ t) (take-append_left xs ys n (omega arith))

  pub drop-append_left : (xs ys : List A) (n : ℕ) → n ≡ length xs → drop n (xs ++ ys) ≡ ys
  drop-append_left [] ys zero h = refl
  drop-append_left [] ys (suc n) h = absurd (omega arith)
  drop-append_left (x ∷ xs) ys zero h = absurd (omega arith)
  drop-append_left (x ∷ xs) ys (suc n) h = drop-append_left xs ys n (omega arith)

  drop-nil : (n : ℕ) → drop {A = A} n [] ≡ []
  drop-nil zero = refl
  drop-nil (suc n) = refl

  drop_at : {m n : ℕ} (xs : List A) → m ≡ n → drop m xs ≡ drop n xs
  drop_at xs e = ap (λ k. drop k xs) e

  pub drop-drop : (m n : ℕ) (xs : List A) → drop m (drop n xs) ≡ drop (n + m) xs
  drop-drop m zero xs = drop_at xs (omega arith)
  drop-drop m (suc n) [] = drop-nil m ∙ sym (drop-nil (suc n + m))
  drop-drop m (suc n) (x ∷ xs) =
      drop-drop m n xs ∙ drop_at {m = suc (n + m)} {n = suc n + m} (x ∷ xs) (omega arith)

  pub drop_cons :
      (xs : List A) (n : ℕ) (x : A) → get_elem? xs n ≡ some x → drop n xs ≡ x ∷ drop (n + 1) xs
  drop_cons [] n x h = ground arith
  drop_cons (y ∷ ys) zero x h = ground arith
  drop_cons (y ∷ ys) (suc n) x h =
      drop_cons ys n x h
      ∙ ap (λ t. x ∷ t) (drop_at {m = suc (n + 1)} {n = suc n + 1} (y ∷ ys) (omega arith))

module _ {ℓ} {A : Type ℓ} where
  pub length-overwrite :
      (xs : List A) (at : ℕ) (ys : List A)
      → at + length ys ≤ length xs
      → length (overwrite xs at ys) ≡ length xs
  length-overwrite xs at ys h = omega (
    arith,
    length-append (take at xs) (ys ++ drop (length ys) (drop at xs)),
    length-append ys (drop (length ys) (drop at xs)),
    length-take at xs,
    length-drop (length ys) (drop at xs),
    length-drop at xs,
  )

  pub length-slice : (xs : List A) (at n : ℕ) → at + n ≤ length xs → length (slice xs at n) ≡ n
  length-slice xs at n h = omega (arith, length-take n (drop at xs), length-drop at xs)

  pub get_elem?-drop : (xs : List A) (n i : ℕ) → get_elem? (drop n xs) i ≡ get_elem? xs (n + i)
  get_elem?-drop xs zero i = ap (get_elem? xs) (omega arith)
  get_elem?-drop [] (suc n) i = refl
  get_elem?-drop (x ∷ xs) (suc n) i =
      get_elem?-drop xs n i
      ∙ ap (get_elem? (x ∷ xs)) {x = suc (n + i)} {y = suc n + i} (omega arith)

  pub take-suc :
      (xs : List A) (n : ℕ) (x : A)
      → get_elem? xs n ≡ some x
      → take (suc n) xs ≡ take n xs ++ (x ∷ [])
  take-suc [] n x h = ground arith
  take-suc (y ∷ ys) zero x h = ground arith
  take-suc (y ∷ ys) (suc n) x h = ap (λ t. y ∷ t) (take-suc ys n x h)

  -- A write to the first element behind `p`.
  pub set_next :
      (p old : List A) (o a : A) (k : ℕ)
      → k ≡ length p
      → set (p ++ (o ∷ old)) k a ≡ (p ++ (a ∷ [])) ++ old
  set_next [] old o a zero h = refl
  set_next [] old o a (suc k) h = absurd (omega (arith, h))
  set_next (z ∷ p) old o a zero h = absurd (omega (arith, h))
  set_next (z ∷ p) old o a (suc k) h = ap (λ t. z ∷ t) (set_next p old o a k (omega (arith, h)))

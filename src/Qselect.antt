-- ===== src/Qselect.antt =====
-- `diag_qselect` of src/qselect.c. The array is the list of its elements.
mod Gather
mod Front
pub mod Rank
mod Examples
use diagonal.Base.{
  ℕ, zero, suc, ◌+◌, ◌-◌, Bool, true, false, Option, none, some, List, [], ◌∷◌, take, drop, ltb,
  leb, if◌then◌else◌, length,
}
use diagonal.Base.Order.{is_lt, is_gt}
use Prim.Native.Nat.{Ordering}

-- NULL, the element pointed to, or a failed assertion.
pub data Selected (A : Type 0) : Type 0 where
  null failed : Selected A
  element : A → Selected A

module _ {A : Type 0} where
  abbrev pub count_if : (A → Bool) → List A → ℕ
  count_if p [] = 0
  count_if p (x ∷ xs) = if p x then suc (count_if p xs) else count_if p xs

  -- `while (j < nmemb && ...) j++;`: the element at `j` and those behind it; `none` is `j == nmemb`.
  abbrev pub find : (A → Bool) → List A → Option (A × List A)
  find keep [] = none
  find keep (y ∷ ys) = if keep y then some (y, ys) else find keep ys

  abbrev pub cons : A → Option (List A) → Option (List A)
  cons x none = none
  cons x (some xs) = some (x ∷ xs)

  -- The loop over `i`, which brings what is kept to the front: `xs` are the elements from `i` to the
  -- end of the front, `back` those from `j` on.
  pub gather : (A → Bool) → List A → List A → Option (List A)
  gather keep [] back = some []
  gather keep (x ∷ xs) back =
      let kept = gather keep xs back in
      if keep x then cons x kept else elim (find keep back) [
        | none ↦ none
        | some found ↦ cons found.0 (gather keep xs found.1)
      ]

module _ {A : Type 0} (cmp : A → A → Ordering) where
  -- `r < 0` and `0 < r`, for the element `p` that `base` points to.
  abbrev pub after_pivot : A → A → Bool
  after_pivot p x = is_lt (cmp p x)

  abbrev pub before_pivot : A → A → Bool
  before_pivot p x = is_gt (cmp p x)

  -- `goto partition` with the front as the new array; fuel out or a failed assertion is `failed`.
  pub partition_front : (List A → Selected A) → (A → Bool) → ℕ → List A → Selected A
  partition_front again keep n xs = elim (gather keep (take n xs) (drop n xs)) [
    | none ↦ failed
    | some front ↦ again front
  ]

  pub partition : ℕ → List A → ℕ → Selected A
  partition zero base k = failed
  partition (suc fuel) [] k = failed
  partition (suc fuel) (p ∷ []) k = if ltb k 1 then element p else failed
  partition (suc fuel) (p ∷ x ∷ xs) k =
      let nmemb = length (p ∷ x ∷ xs) in
      let n_lt = count_if (after_pivot p) (x ∷ xs) in
      let n_gt = count_if (before_pivot p) (x ∷ xs) in
      let n_eq = nmemb - n_lt - n_gt in
      if leb nmemb k
      then failed
      else if ltb k n_lt
      then partition_front (λ front. partition fuel front k) (after_pivot p) n_lt (x ∷ xs)
      else if leb (n_lt + n_eq) k
      then partition_front (λ front. partition fuel front (k - (n_lt + n_eq))) (before_pivot p) n_gt
          (x ∷ xs)
      else element p

  -- The array gets shorter in every round, so its length is enough fuel.
  pub qselect : List A → ℕ → Selected A
  qselect [] k = failed
  qselect (x ∷ xs) k =
      if leb (length (x ∷ xs)) k
      then null
      else if leb (length (x ∷ xs)) 1
      then element x
      else partition (length (x ∷ xs)) (x ∷ xs) k

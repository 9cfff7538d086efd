-- ===== src/Base/Order.antt =====
-- Comparisons, which stand for the sign of the `int` that a comparing function of C returns.
use Prim.Native.Nat.Ordering.{lt, eq, gt}
use Prim.Native.Nat.{ℕ, Ordering, compare}
use mathlib.Core.Path.{◌≡◌, refl}
use mathlib.Core.Logic.{◌⊎◌, inl, inr}
use mathlib.Core.Bool.{Bool, true, false}

-- `r < 0`, `r == 0` and `0 < r`
abbrev pub is_lt : Ordering → Bool
is_lt lt = true
is_lt eq = false
is_lt gt = false

abbrev pub is_eq : Ordering → Bool
is_eq lt = false
is_eq eq = true
is_eq gt = false

abbrev pub is_gt : Ordering → Bool
is_gt lt = false
is_gt eq = false
is_gt gt = true

pub Ordering-cases : (o : Ordering) → (o ≡ lt) ⊎ (o ≡ eq) ⊎ (o ≡ gt)
Ordering-cases lt = inl refl
Ordering-cases eq = inr (inl refl)
Ordering-cases gt = inr (inr refl)

-- The comparison orders the keys by a rank. Every total preorder of the finitely many values of
-- `intptr_t` has one.
pub record IsRanked {K : Type 0} (cmp : K → K → Ordering) : Type 0 where
  pub rank : K → ℕ
  pub cmp_rank : (a b : K) → cmp a b ≡ compare (rank a) (rank b)

-- ===== src/Base/Int.antt =====
-- Signed integers, for the arguments of type `intptr_t`.
use Prim.Native.Nat.{ℕ, suc, ◌-◌}
use mathlib.Core.Bool.{Bool, false}
use diagonal.Base.Tests.{ltb, ◌==◌}
use diagonal.Base.Word.{size_mod}

-- `negsuc n` is -(n + 1).
pub data ℤ : Type 0 where
  pos : ℕ → ℤ
  negsuc : ℕ → ℤ

abbrev pub is_zero : ℤ → Bool
is_zero (ℤ.pos n) = n == 0
is_zero (ℤ.negsuc n) = false

-- `(size_t)e`
abbrev pub to_size : ℤ → ℕ
to_size (ℤ.pos n) = n
to_size (ℤ.negsuc n) = size_mod - suc n

-- `d < e` for a `d` that is not negative.
abbrev pub below_int : ℕ → ℤ → Bool
below_int d (ℤ.pos n) = ltb d n
below_int d (ℤ.negsuc n) = false

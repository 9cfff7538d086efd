-- ===== src/Base/Word.antt =====
-- Wrap-around arithmetic of `uint32_t` and `size_t`, and the test of a bit.
use Prim.Native.Nat.{ℕ, ◌+◌, ◌-◌, ◌*◌, ◌%◌, ◌^◌, bit_and}
use mathlib.Core.Bool.{Bool, not}
use diagonal.Base.Tests.{◌==◌}

abbrev pub u32_mod : ℕ
u32_mod = 2 ^ 32

abbrev pub size_mod : ℕ
size_mod = 2 ^ 64

abbrev pub add32 : ℕ → ℕ → ℕ
add32 a b = (a + b) % u32_mod

abbrev pub sub32 : ℕ → ℕ → ℕ
sub32 a b = (a + u32_mod - b) % u32_mod

abbrev pub mul32 : ℕ → ℕ → ℕ
mul32 a b = a * b % u32_mod

abbrev pub add_size : ℕ → ℕ → ℕ
add_size a b = (a + b) % size_mod

abbrev pub sub_size : ℕ → ℕ → ℕ
sub_size a b = (a + size_mod - b) % size_mod

-- `x & flag` as a condition.
abbrev pub has_flag : ℕ → ℕ → Bool
has_flag x flag = not (bit_and x flag == 0)

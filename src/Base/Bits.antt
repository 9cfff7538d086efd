-- ===== src/Base/Bits.antt =====
-- Masks and shifts as arithmetic, from the layers of binary digits.
use Prim.Native.Nat.{
  ℕ, zero, suc, ◌+◌, ◌*◌, ◌/◌, ◌%◌, ◌^◌, ◌≤◌, ◌<◌, min, max, bit_and, bit_or, digits,
  bit_or-bitwise, bit_and-bitwise,
}
use mathlib.Core.Path.{◌≡◌, refl, ap, ◌∙◌, sym}
use native.Mathlib.Omega.{arith}
use native.Mathlib.Nat.{pow-zero, pow-succ'}

scaled_once : (a : ℕ) → a * 2 ^ 0 ≡ a
scaled_once a = omega (arith, ap (λ (t : ℕ). a * t) (pow-zero 2))

scaled_twice : (a k : ℕ) → a * 2 ^ suc k ≡ 2 * (a * 2 ^ k)
scaled_twice a k = omega (arith, ap (λ (t : ℕ). a * t) (pow-succ' 2 k))

-- Below the `k` zeros at the end of `x` the digits of `b` fill in.
fill : (n k a x b : ℕ) → x ≡ a * 2 ^ k → b < 2 ^ k → x ≤ n → digits (λ d. d) max n x b ≡ x + b
fill zero k a zero b e small enough = omega arith
fill zero k a (suc x) b e small enough = absurd (omega arith)
fill (suc n) k a zero b e small enough = omega arith
fill (suc n) zero a (suc x) b e small enough =
    let none_left : b ≡ 0 = omega (arith, pow-zero 2) in
    let rest =
      fill n 0 (suc x / 2) (suc x / 2) (b / 2) (sym (scaled_once (suc x / 2)))
        (omega (arith, pow-zero 2)) (omega arith) in
    omega (arith, rest)
fill (suc n) (suc k) a (suc x) b e small enough =
    let rest =
      fill n k a (suc x / 2) (b / 2) (omega (arith, scaled_twice a k))
        (omega (arith, pow-succ' 2 k)) (omega arith) in
    omega (arith, rest, scaled_twice a k)

-- `k` ones as a mask keep the lowest `k` digits.
keep :
    (n k q r x m : ℕ)
    → x ≡ q * 2 ^ k + r
    → r < 2 ^ k
    → m + 1 ≡ 2 ^ k
    → x ≤ n
    → digits (λ d. zero) min n x m ≡ r
keep zero k q r zero m e small ones enough = omega arith
keep zero k q r (suc x) m e small ones enough = absurd (omega arith)
keep (suc n) k q r zero m e small ones enough = omega arith
keep (suc n) zero q r (suc x) m e small ones enough =
    let rest =
      keep n 0 (suc x / 2) 0 (suc x / 2) (m / 2) (omega (arith, scaled_once (suc x / 2)))
        (omega (arith, pow-zero 2)) (omega (arith, pow-zero 2)) (omega arith) in
    omega (arith, rest, pow-zero 2)
keep (suc n) (suc k) q r (suc x) m e small ones enough =
    let rest =
      keep n k q (r / 2) (suc x / 2) (m / 2) (omega (arith, scaled_twice q k))
        (omega (arith, pow-succ' 2 k)) (omega (arith, pow-succ' 2 k)) (omega arith) in
    omega (arith, rest, scaled_twice q k, pow-succ' 2 k)

-- `b & 0x7f`
pub bit_and_low : (b : ℕ) → bit_and b 0x7f ≡ b % 128
bit_and_low b =
    bit_and-bitwise b 0x7f
    ∙ keep b 7 (b / 128) (b % 128) b 0x7f (omega arith) (omega arith) refl (omega arith)

-- Seven low bits below a shifted number add to it.
pub bit_or_shifted : (a b : ℕ) → b < 128 → bit_or (a * 128) b ≡ a * 128 + b
bit_or_shifted a b h =
    bit_or-bitwise (a * 128) b
    ∙ fill (a * 128) 7 a (a * 128) b (omega arith) (omega arith) (omega arith)

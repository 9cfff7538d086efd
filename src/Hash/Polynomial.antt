-- ===== src/Hash/Polynomial.antt =====
-- The Rabin-Karp hash is a polynomial in the base, taken modulo the word size.
use diagonal.Base.{
  ℕ, zero, suc, ◌+◌, ◌*◌, ◌/◌, ◌%◌, ◌^◌, ◌<◌, ◌≡◌, refl, sym, ap, ◌∙◌, List, [], ◌∷◌, ◌++◌, arith,
  length,
}
use diagonal.Base.Word.{u32_mod}
use native.Mathlib.Nat.{add-mul-mod_self_left, div-add-mod, mod-add-mod, pow-zero, pow-succ'}
use diagonal.Hash.{rabin_karp_loop, hash32_rabin_karp, factor_loop}

-- The bytes as the digits of a number, behind the number `v`; it knows no word size.
abbrev pub number : ℕ → ℕ → List ℕ → ℕ
number base v [] = v
number base v (x ∷ xs) = number base (v * base + x) xs

pub mod-mul-mod : (a b m : ℕ) → a % m * b % m ≡ a * b % m
mod-mul-mod a b m =
    let whole : a % m * b + m * (a / m * b) ≡ a * b =
      omega (arith, ap (λ t. t * b) (div-add-mod a m)) in
    sym (add-mul-mod_self_left (a % m * b) m (a / m * b)) ∙ ap (λ t. t % m) whole

rabin_karp_loop-number :
    (m base v : ℕ) (xs : List ℕ) → 0 < m → rabin_karp_loop m base (v % m) xs ≡ number base v xs % m
unfolding rabin_karp_loop
rabin_karp_loop-number m base v [] h = refl
rabin_karp_loop-number m base v (x ∷ xs) h =
    rw (mod-mul-mod v base m, mod-add-mod (v * base) m x)
      (rabin_karp_loop-number m base (v * base + x) xs h)

-- The 32-bit hash is the number of the bytes in the given base, modulo 2 ^ 32: the wrap-around of
-- each round loses nothing else.
pub hash32_rabin_karp-number :
    (bytes : List ℕ) (base : ℕ) → hash32_rabin_karp bytes base ≡ number base 0 bytes % u32_mod
unfolding hash32_rabin_karp
hash32_rabin_karp-number bytes base = rabin_karp_loop-number u32_mod base 0 bytes (omega arith)

pub number-append :
    (base v : ℕ) (xs ys : List ℕ) → number base v (xs ++ ys) ≡ number base (number base v xs) ys
number-append base v [] ys = refl
number-append base v (x ∷ xs) ys = number-append base (v * base + x) xs ys

-- The leading digit has the weight `base ^ length xs`.
pub number-lead :
    (base v : ℕ) (xs : List ℕ) → number base v xs ≡ v * base ^ length xs + number base 0 xs
number-lead base v [] = omega (arith, ap (λ (t : ℕ). v * t) (pow-zero base))
number-lead base v (x ∷ xs) = omega (
  arith,
  number-lead base (v * base + x) xs,
  number-lead base (0 * base + x) xs,
  ap (λ (t : ℕ). v * t) (pow-succ' base (length xs)),
)

pub factor_loop-pow : (n base f : ℕ) → factor_loop n base (f % u32_mod) ≡ f * base ^ n % u32_mod
unfolding factor_loop
factor_loop-pow zero base f =
    let one_factor : f * base ^ 0 ≡ f = omega (arith, ap (λ (t : ℕ). f * t) (pow-zero base)) in
    rw one_factor
factor_loop-pow (suc n) base f =
    let more : f * base * base ^ n ≡ f * base ^ suc n =
      omega (arith, ap (λ (t : ℕ). f * t) (pow-succ' base n)) in
    rw (mod-mul-mod f base u32_mod) (factor_loop-pow n base (f * base) ∙ ap (λ t. t % u32_mod) more)

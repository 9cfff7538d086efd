-- ===== src/Hash.antt =====
-- Hash functions over bytes (src/hash.c, src/diagonal/hash.h).
pub mod Polynomial
pub mod Rolling
mod Examples
use diagonal.Base.{
  ℕ, zero, suc, ◌+◌, ◌-◌, ◌*◌, ◌%◌, ◌≤◌, ◌<◌, Option, none, some, List, [], ◌∷◌, map, length,
  get_elem?, take, ltb, if◌then◌else◌,
}
use diagonal.Base.Word.{u32_mod, size_mod}

-- `v *= base; v += data[i];` in words of `2 ^ w = modulus`
abbrev pub rabin_karp_step : ℕ → ℕ → ℕ → ℕ → ℕ
rabin_karp_step modulus base v x = (v * base % modulus + x) % modulus

unfoldable pub rabin_karp_loop : ℕ → ℕ → ℕ → List ℕ → ℕ
rabin_karp_loop modulus base v [] = v
rabin_karp_loop modulus base v (x ∷ xs) =
    rabin_karp_loop modulus base (rabin_karp_step modulus base v x) xs

unfoldable pub hash32_rabin_karp : List ℕ → ℕ → ℕ
unfolding rabin_karp_loop
hash32_rabin_karp bytes base = rabin_karp_loop u32_mod base 0 bytes

pub hash64_rabin_karp : List ℕ → ℕ → ℕ
hash64_rabin_karp bytes base = rabin_karp_loop size_mod base 0 bytes

-- The two sums of Adler-32, each below 65521.
pub adler32_loop : ℕ → ℕ → List ℕ → ℕ × ℕ
adler32_loop a b [] = (a, b)
adler32_loop a b (x ∷ xs) =
    let a' = (a + x) % u32_mod % 65521 in adler32_loop a' ((b + a') % u32_mod % 65521) xs

-- The value before `htonl`.
-- `htonl` is the system's.
pub hash32_adler32 : (htonl : ℕ → ℕ) → List ℕ → ℕ
hash32_adler32 htonl bytes = let (a, b) = adler32_loop 1 0 bytes in htonl (b * 65536 % u32_mod + a)

-- `struct diag_rollinghash32` with its attributes; `head` and `tail` are offsets into `bytes`.
pub record RollingHash32 : Type 0 where
  pub value : ℕ
  pub bytes : List ℕ
  pub s_window : ℕ
  pub head : ℕ
  pub tail : ℕ
  pub base : ℕ
  pub factor : ℕ

-- The fields that `init` sets are 0 before it.
-- What follows the assertion of `rollinghash32_new_rabin_karp`.
unfoldable pub new_rolling_hash : List ℕ → ℕ → ℕ → RollingHash32
new_rolling_hash bytes s_window base = record {
  value = 0;
  bytes = bytes;
  s_window = s_window;
  head = 0;
  tail = 0;
  base = base;
  factor = 0;
}

-- Nothing if `assert(base > 0)` fails.
unfoldable pub rollinghash32_new_rabin_karp : List ℕ → ℕ → ℕ → Option RollingHash32
rollinghash32_new_rabin_karp bytes s_window base =
    if ltb 0 base then some (new_rolling_hash bytes s_window base) else none

-- `for (i = 1; i < s_window; i++) factor *= base;` in `n` rounds
unfoldable pub factor_loop : ℕ → ℕ → ℕ → ℕ
factor_loop zero base factor = factor
factor_loop (suc n) base factor = factor_loop n base (factor * base % u32_mod)

unfoldable pub rabin_karp_init32 : RollingHash32 → RollingHash32
rabin_karp_init32 rh = record rh {
  factor = factor_loop (rh.s_window - 1) rh.base 1;
  value = hash32_rabin_karp (take rh.s_window rh.bytes) rh.base;
  head = rh.s_window;
  tail = 0;
}

-- `none` is a read past the end of the bytes.
unfoldable pub rabin_karp_roll32 : RollingHash32 → Option RollingHash32
rabin_karp_roll32 rh = elim (get_elem? rh.bytes rh.tail) [
  | none ↦ none
  | some out ↦ elim (get_elem? rh.bytes rh.head) [
    | none ↦ none
    | some next ↦
        let v = (rh.value + u32_mod - out * rh.factor % u32_mod) % u32_mod in
        some (record rh {
          value = (v * rh.base % u32_mod + next) % u32_mod;
          head = rh.head + 1;
          tail = rh.tail + 1;
        })
  ]
]

-- `n` more rolls; the hash values in order.
pub collect_loop : ℕ → RollingHash32 → Option (List ℕ)
collect_loop zero rh = some []
collect_loop (suc n) rh = elim (rabin_karp_roll32 rh) [
  | none ↦ none
  | some rh' ↦ elim (collect_loop n rh') [ none ↦ none | some rest ↦ some (rh'.value ∷ rest) ]
]

-- `*length` values: `arr[0]` from `init`, the others from `roll`.
pub rollinghash32_collect : RollingHash32 → Option (List ℕ)
rollinghash32_collect rh =
    let first = rabin_karp_init32 rh in
    elim (collect_loop (length rh.bytes - rh.s_window) first) [
      | none ↦ none
      | some rest ↦ some (first.value ∷ rest)
    ]

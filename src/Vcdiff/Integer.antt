-- ===== src/Vcdiff/Integer.antt =====
-- Integers of the format: seven bits a byte, highest group first (`integer_read` and
-- `read_integer` of src/vcdiff.c).
pub mod Laws
use diagonal.Base.{
  ℕ, zero, suc, ◌*◌, ◌/◌, ◌%◌, Option, none, some, List, [], ◌∷◌, bit_and, bit_or, ◌==◌,
  if◌then◌else◌,
}
use diagonal.Base.Word.{u32_mod}
use diagonal.Port.{Reader}
use diagonal.Port.Input.{Read, Input, pure, ◌>>=◌, byte}

-- `(t << 7) | (uint32_t)(b & ~((uint8_t)0x80))`
abbrev pub push_group : ℕ → ℕ → ℕ
push_group t b = bit_or (t * 128 % u32_mod) (bit_and b 0x7f)

-- `(t << 7) | b`
abbrev pub last_group : ℕ → ℕ → ℕ
last_group t b = bit_or (t * 128 % u32_mod) b

module _ {S : Type 0} (port : Reader S) where
  pub integer_loop : ℕ → ℕ → Input S ℕ
  integer_loop zero t = λ s. Read.stuck
  integer_loop (suc fuel) t = do
    b ← byte port
    let more = integer_loop fuel (push_group t b)
    if b / 128 == 0 then pure (last_group t b) else more

  pub integer_read : ℕ → Input S ℕ
  integer_read fuel = integer_loop fuel 0

-- The pointers `buf` and `sentinel` are the list between them; `none` is NULL.
unfoldable pub read_integer_loop : List ℕ → ℕ → Option (ℕ × List ℕ)
read_integer_loop [] t = none
read_integer_loop (b ∷ buf) t =
    let more = read_integer_loop buf (push_group t b) in
    if b / 128 == 0 then some (last_group t b, buf) else more

unfoldable pub read_integer : List ℕ → Option (ℕ × List ℕ)
read_integer buf = read_integer_loop buf 0

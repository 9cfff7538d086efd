-- ===== src/Vcdiff/Integer/Laws.antt =====
-- Reading an integer back from its encoding, from a section or through a port.
use diagonal.Base.{
  ℕ, zero, suc, ◌+◌, ◌*◌, ◌/◌, ◌%◌, ◌^◌, ◌≤◌, ◌<◌, ◌≡◌, ap, ◌∙◌, some, none, Option, All, List, [],
  ◌∷◌, ◌++◌, arith, append_assoc, true, false, inl, inr, Bool-cases, subst, ◌==◌, if◌then◌else◌,
  length, length-append, bit_and,
}
use diagonal.Base.Bits.{bit_and_low, bit_or_shifted}
use diagonal.Base.Word.{u32_mod}
use diagonal.Port.{Reader, IsReader}
use diagonal.Port.Input.{Read}
use diagonal.Port.Input.Laws.{byte_ok, byte_end, Parses}
use diagonal.Vcdiff.Integer.{
  push_group, last_group, integer_loop, integer_read, read_integer_loop, read_integer,
}

-- The groups above the last one of a number below 128 ^ (k + 1), each marked as followed.
abbrev pub upper_groups : ℕ → ℕ → List ℕ
upper_groups zero n = []
upper_groups (suc k) n =
    let rest = upper_groups k (n / 128) in if n == 0 then [] else rest ++ ((n % 128 + 128) ∷ [])

-- The shortest encoding of a number below 2 ^ 32.
unfoldable pub encode_integer : ℕ → List ℕ
encode_integer n = upper_groups 4 (n / 128) ++ (n % 128 ∷ [])

push_group-followed :
    (t d : ℕ) → t * 128 + d < u32_mod → d < 128 → push_group t (d + 128) ≡ t * 128 + d
push_group-followed t d h hd =
    let mask : bit_and (d + 128) 0x7f ≡ d = bit_and_low (d + 128) ∙ omega arith in
    let fits : t * 128 % u32_mod ≡ t * 128 = omega arith in rw (mask, fits) (bit_or_shifted t d hd)

last_group-plain : (t d : ℕ) → t * 128 + d < u32_mod → d < 128 → last_group t d ≡ t * 128 + d
last_group-plain t d h hd =
    let fits : t * 128 % u32_mod ≡ t * 128 = omega arith in rw fits (bit_or_shifted t d hd)

read_followed :
    (t d : ℕ) (rest : List ℕ)
    → t * 128 + d < u32_mod
    → d < 128
    → read_integer_loop ((d + 128) ∷ rest) t ≡ read_integer_loop rest (t * 128 + d)
unfolding read_integer_loop
read_followed t d rest h hd =
    let top : ((d + 128) / 128 == 0) ≡ false = ground arith in
    rw (top, push_group-followed t d h hd)

read_last :
    (t d : ℕ) (rest : List ℕ)
    → t * 128 + d < u32_mod
    → d < 128
    → read_integer_loop (d ∷ rest) t ≡ some (t * 128 + d, rest)
unfolding read_integer_loop
read_last t d rest h hd =
    let top : (d / 128 == 0) ≡ true = ground arith in rw (top, last_group-plain t d h hd)

read_upper :
    (k n : ℕ) (rest : List ℕ)
    → n < 128 ^ k
    → n < u32_mod
    → read_integer_loop (upper_groups k n ++ rest) 0 ≡ read_integer_loop rest n
read_upper zero n rest h fits = ap (read_integer_loop rest) (omega arith)
read_upper (suc k) n rest h fits = elim (Bool-cases (n == 0)) [
  | inl e ↦ rw e (ap (read_integer_loop rest) (ground arith))
  | inr e ↦
      let whole : n / 128 * 128 + n % 128 ≡ n = omega arith in
      rw (e, append_assoc)
        (read_upper k (n / 128) _ (omega arith) (omega arith)
          ∙ read_followed (n / 128) (n % 128) rest (omega arith) (omega arith)
          ∙ ap (read_integer_loop rest) whole)
]

-- Every 32-bit number is read back from its encoding, whatever follows it.
pub read_integer-encode_integer :
    (n : ℕ) (rest : List ℕ) → n < u32_mod → read_integer (encode_integer n ++ rest) ≡ some (n, rest)
unfolding read_integer encode_integer
read_integer-encode_integer n rest h =
    let whole : n / 128 * 128 + n % 128 ≡ n = omega arith in
    rw append_assoc (
      read_upper 4 (n / 128) (n % 128 ∷ rest) (omega arith) (omega arith)
      ∙ read_last (n / 128) (n % 128) rest (omega arith) (omega arith)
      ∙ ap (λ v. some (v, rest)) whole)

last_group-lt : (t b : ℕ) → b < 128 → last_group t b < u32_mod
last_group-lt t b h =
    let shifted : t * 128 % u32_mod ≡ t % 2 ^ 25 * 128 = omega arith in
    rw (shifted, bit_or_shifted (t % 2 ^ 25) b h) (omega arith)

read_integer_loop-lt :
    (bs : List ℕ) (t v : ℕ) (rest : List ℕ)
    → read_integer_loop bs t ≡ some (v, rest)
    → (v < u32_mod) × (length rest < length bs)
unfolding read_integer_loop
read_integer_loop-lt [] t v rest e = cc
read_integer_loop-lt (b ∷ bs) t v rest e = elim (Bool-cases (b / 128 == 0)) [
  | inl last ↦
      let value : last_group t b ≡ v = ground arith in
      let behind : bs ≡ rest = ground arith in
      (rw (← value) (last_group-lt t b (ground arith)), rw behind (omega arith))
  | inr more ↦
      let (p, q) = read_integer_loop-lt bs (push_group t b) v rest (rw more at e) in
      (p, omega arith)
]

-- What is read fits a `uint32_t` and takes at least a byte, on any input.
pub read_integer-lt :
    (bs : List ℕ) (v : ℕ) (rest : List ℕ)
    → read_integer bs ≡ some (v, rest)
    → (v < u32_mod) × (length rest < length bs)
unfolding read_integer
read_integer-lt bs v rest e = read_integer_loop-lt bs 0 v rest e

read_integer_loop-All :
    (P : ℕ → Type 0) (bs : List ℕ) (t v : ℕ) (rest : List ℕ)
    → All P bs
    → read_integer_loop bs t ≡ some (v, rest)
    → All P rest
unfolding read_integer_loop
read_integer_loop-All P [] t v rest h e = elim (absurd_none e) [ ]
  where
    absurd_none : ◌≡◌ {A = Option (ℕ × List ℕ)} none (some (v, rest)) → ⊥
    absurd_none e' = cc
read_integer_loop-All P (b ∷ bs) t v rest h e = elim (Bool-cases (b / 128 == 0)) [
  | inl last ↦ let behind : bs ≡ rest = ground arith in subst (All P) behind h.1
  | inr more ↦ read_integer_loop-All P bs (push_group t b) v rest h.1 (rw more at e)
]

-- What is left is a part of what was there.
pub read_integer-All :
    (P : ℕ → Type 0) (bs : List ℕ) (v : ℕ) (rest : List ℕ)
    → All P bs
    → read_integer bs ≡ some (v, rest)
    → All P rest
unfolding read_integer
read_integer-All P bs v rest h e = read_integer_loop-All P bs 0 v rest h e

length-upper_groups : (k n : ℕ) → length (upper_groups k n) ≤ k
length-upper_groups zero n = omega arith
length-upper_groups (suc k) n = elim (Bool-cases (n == 0)) [
  | inl e ↦ rw e (omega arith)
  | inr e ↦ rw (e, length-append) (omega (arith, length-upper_groups k (n / 128)))
]

pub length-encode_integer : (n : ℕ) → length (encode_integer n) ≤ 5
unfolding encode_integer
length-encode_integer n = rw length-append (omega (arith, length-upper_groups 4 (n / 128)))

module _ {S : Type 0} (port : Reader S) (Holds : S → List ℕ → Type 0)
    (law : IsReader port Holds) where
  -- A port reads the integer that its content starts with, and leaves the rest.
  pub integer_loop_ok :
      (bs : List ℕ) (fuel t v : ℕ) (rest : List ℕ) (s : S)
      → Holds s bs
      → length bs ≤ fuel
      → read_integer_loop bs t ≡ some (v, rest)
      → (s' : S) × (integer_loop port fuel t s ≡ Read.ok v s') × Holds s' rest
  unfolding integer_loop read_integer_loop
  integer_loop_ok [] fuel t v rest s h hf e = cc
  integer_loop_ok (b ∷ bs) zero t v rest s h hf e = absurd (omega arith)
  integer_loop_ok (b ∷ bs) (suc fuel) t v rest s h hf e =
      let (s', r, h') = byte_ok port Holds law s b bs h in
      elim (Bool-cases (b / 128 == 0)) [
        | inl last ↦
            let value : last_group t b ≡ v = ground arith in
            let behind : bs ≡ rest = ground arith in
            (s', rw (r, last) (ap (λ x. Read.ok x s') value), subst (Holds s') behind h')
        | inr more ↦
            let (u, q, k) =
              integer_loop_ok bs fuel (push_group t b) v rest s' h' (omega arith) (rw more at e) in
            (u, rw (r, more) q, k)
      ]

  -- A port that ends inside an integer reports the end of the input, with as much fuel.
  pub integer_loop_end :
      (bs : List ℕ) (fuel t : ℕ) (s : S)
      → Holds s bs
      → length bs < fuel
      → read_integer_loop bs t ≡ none
      → integer_loop port fuel t s ≡ Read.end
  unfolding integer_loop read_integer_loop
  integer_loop_end bs zero t s h hf e = absurd (omega arith)
  integer_loop_end [] (suc fuel) t s h hf e = rw (byte_end port Holds law s h)
  integer_loop_end (b ∷ bs) (suc fuel) t s h hf e =
      let (s', r, h') = byte_ok port Holds law s b bs h in
      elim (Bool-cases (b / 128 == 0)) [
        | inl last ↦ ground arith
        | inr more ↦
            rw (r, more)
              (integer_loop_end bs fuel (push_group t b) s' h' (omega arith) (rw more at e))
      ]

  -- `integer_read` on a port agrees with `read_integer` on what the port holds.
  pub integer_read_ok :
      (bs : List ℕ) (fuel v : ℕ) (rest : List ℕ) (s : S)
      → Holds s bs
      → length bs ≤ fuel
      → read_integer bs ≡ some (v, rest)
      → (s' : S) × (integer_read port fuel s ≡ Read.ok v s') × Holds s' rest
  unfolding integer_read read_integer
  integer_read_ok bs fuel v rest s = integer_loop_ok bs fuel 0 v rest s

-- The rule for an integer of the format.
pub Parses-integer :
    {S : Type 0} {port : Reader S} {Holds : S → List ℕ → Type 0} (law : IsReader port Holds)
    {fuel : ℕ} (n : ℕ)
    → n < u32_mod
    → Parses Holds fuel (integer_read port fuel) (encode_integer n) n
Parses-integer {port} {Holds} law {fuel} n h = record {
  run = λ s rest k len.
      integer_read_ok port Holds law (encode_integer n ++ rest) fuel n rest s k len
        (read_integer-encode_integer n rest h);
}

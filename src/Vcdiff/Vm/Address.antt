-- ===== src/Vcdiff/Vm/Address.antt =====
-- Address modes: `addr_encode` of src/vcdiff.c (kept there under `#if 0`) against `vm_addr_decode`.
use diagonal.Base.{
  ℕ, zero, suc, ◌+◌, ◌-◌, ◌*◌, ◌/◌, ◌%◌, ◌≤◌, ◌<◌, and_then, ◌≡◌, refl, ap, ◌∙◌, true, false, ◌&&◌,
  Option, some, List, [], ◌∷◌, ◌++◌, arith, ltb, leb, ◌==◌, if◌then◌else◌, length, get_elem?,
  get_or, inl, inr, Bool-cases, All,
}
use diagonal.Base.Word.{add32, sub32, u32_mod}
use diagonal.Vcdiff.Integer.{read_integer}
use diagonal.Vcdiff.Integer.Laws.{encode_integer, read_integer-encode_integer}
use diagonal.Vcdiff.Cache.{Cache, IsValid, cache_update}
use diagonal.Vcdiff.Cache.Laws.{IsUpdated, cache_update-IsUpdated}
use diagonal.Vcdiff.Vm.{
  Vm, Run, address_read, vm_addr_decode, vm_addr_read_integer, vm_addr_read_byte,
}

-- The best address so far, and its mode.
abbrev Best : Type 0
Best = ℕ × ℕ

unfoldable pub pick_here : ℕ → ℕ → Best → Best
pick_here addr here best = if ltb (sub32 here addr) best.0 then (sub32 here addr, 1) else best

-- The loop over the near cache from slot `i` on. `d >= 0` holds of every `uint32_t`.
unfoldable pub pick_near : ℕ → ℕ → List ℕ → Best → Best
pick_near addr i [] best = best
pick_near addr i (a ∷ near) best =
    pick_near addr (i + 1) near (if ltb (sub32 addr a) best.0 then (sub32 addr a, i + 2) else best)

unfoldable pub pick_same : Cache → ℕ → Best → Best
pick_same cache addr best =
    let d = addr % (cache.s_same * 256) in
    if ltb 0 cache.s_same && get_or cache.same d 0 == addr
    then (d % 256, cache.s_near + 2 + d / 256)
    else best

unfoldable pub pick_best : Cache → ℕ → ℕ → Best
pick_best cache addr here =
    pick_same cache addr (pick_near addr 0 cache.near (pick_here addr here (addr, 0)))

-- The encoded address, its mode, and the cache afterwards; nothing for a store outside the cache.
unfoldable pub addr_encode : Cache → ℕ → ℕ → Option (ℕ × ℕ × Cache)
unfolding pick_here pick_near pick_same
addr_encode cache addr here =
    let best = pick_best cache addr here in
    and_then (cache_update cache addr) (λ cache'. some (best.0, best.1, cache'))

-- The bytes in the addresses section: modes of the same cache take one byte.
abbrev pub address_bytes : Cache → ℕ → ℕ → List ℕ
address_bytes cache mode d = if ltb mode (cache.s_near + 2) then encode_integer d else d ∷ []

-- `d` in mode `mode` stands for `addr`.
data Stands (cache : Cache) (here addr : ℕ) : ℕ → ℕ → Type 0 where
  self : (d : ℕ) → d ≡ addr → d < u32_mod → Stands cache here addr d 0
  from_here : (d : ℕ) → sub32 here d ≡ addr → d < u32_mod → Stands cache here addr d 1
  near :
      (d m a : ℕ)
      → m < cache.s_near
      → get_elem? cache.near m ≡ some a
      → add32 a d ≡ addr
      → d < u32_mod
      → Stands cache here addr d (m + 2)
  same :
      (d m i : ℕ)
      → i ≡ m * 256 + d
      → i < cache.s_same * 256
      → get_elem? cache.same i ≡ some addr
      → Stands cache here addr d (cache.s_near + 2 + m)

get_elem?_of_get_or :
    (xs : List ℕ) (i a : ℕ) → i < length xs → get_or xs i 0 ≡ a → get_elem? xs i ≡ some a
get_elem?_of_get_or [] i a h e = elim h [ ]
get_elem?_of_get_or (x ∷ xs) zero a h e = ap some e
get_elem?_of_get_or (x ∷ xs) (suc i) a h e = get_elem?_of_get_or xs i a (omega arith) e

mem-All :
    (xs : List ℕ) (j a : ℕ)
    → All (λ a. a < u32_mod) xs
    → get_elem? xs j ≡ some a
    → (j < length xs) × (a < u32_mod)
mem-All [] j a h e = cc
mem-All (x ∷ xs) zero a h e = ground arith
mem-All (x ∷ xs) (suc j) a h e = let (p, q) = mem-All xs j a h.1 e in (omega arith, q)

module _ (cache : Cache) (here addr : ℕ) (addr_fits : addr < u32_mod)
    (here_fits : here < u32_mod) where
  Pick : Best → Type 0
  Pick best = Stands cache here addr best.0 best.1

  pick_here-Stands : (best : Best) → Pick best → Pick (pick_here addr here best)
  unfolding pick_here Pick
  pick_here-Stands best p = elim (Bool-cases (ltb (sub32 here addr) best.0)) [
    | inl e ↦ rw e (from_here (sub32 here addr) (omega arith) (omega arith))
    | inr e ↦ rw e p
  ]

  pick_near-Stands :
      (near_left : List ℕ) (i : ℕ) (best : Best)
      → ((j a : ℕ)
          → get_elem? near_left j ≡ some a
          → (get_elem? cache.near (i + j) ≡ some a) × (i + j < cache.s_near) × (a < u32_mod))
      → Pick best
      → Pick (pick_near addr i near_left best)
  unfolding pick_near Pick
  pick_near-Stands [] i best sub p = p
  pick_near-Stands (a ∷ left) i best sub p =
      pick_near-Stands left (i + 1) _
        (λ j a' e. let k : i + 1 + j ≡ i + suc j = omega arith in rw k (sub (suc j) a' e))
        (elim (Bool-cases (ltb (sub32 addr a) best.0)) [
          | inl e ↦
              let k : i + 0 ≡ i = omega arith in
              let (found, within, word) = sub 0 a refl in
              rw e
                (near (sub32 addr a) i a (omega arith) (rw k at found) (omega arith) (omega arith))
          | inr e ↦ rw e p
        ])

  pick_same-Stands : (best : Best) → IsValid cache → Pick best → Pick (pick_same cache addr best)
  unfolding pick_same Pick
  pick_same-Stands best v p =
      let d = addr % (cache.s_same * 256) in
      elim (Bool-cases (ltb 0 cache.s_same && get_or cache.same d 0 == addr)) [
        | inl e ↦
            let pos : 0 < cache.s_same = ground arith in
            let size : 0 < cache.s_same * 256 = omega arith in
            let within : d < cache.s_same * 256 = grind arith in
            rw e (
              same (d % 256) (d / 256) d (omega arith) within
                (get_elem?_of_get_or cache.same d addr (omega (arith, v.same_size)) (ground arith)))
        | inr e ↦ rw e p
      ]

  near-All :
      (xs : List ℕ) (s : ℕ)
      → length xs ≡ s
      → All (λ a. a < u32_mod) xs
      → (j a : ℕ) → get_elem? xs j ≡ some a
      → (get_elem? xs (0 + j) ≡ some a) × (0 + j < s) × (a < u32_mod)
  near-All xs s e h j a found =
      let (within, word) = mem-All xs j a h found in
      let k : 0 + j ≡ j = omega arith in (rw k found, omega arith, word)

  pick_best-Stands :
      IsValid cache
      → Stands cache here addr (pick_best cache addr here).0 (pick_best cache addr here).1
  unfolding pick_best Pick
  pick_best-Stands v = pick_same-Stands _ v (
      pick_near-Stands cache.near 0 _ (near-All cache.near cache.s_near v.near_size v.near_words)
        (pick_here-Stands (addr, 0) (self addr refl addr_fits)))

integer_ok :
    (d : ℕ) (bytes rest : List ℕ) (vm : Vm)
    → d < u32_mod
    → bytes ≡ encode_integer d
    → vm.addr ≡ bytes ++ rest
    → vm_addr_read_integer vm ≡ Run.ok d (record vm { addr = rest })
unfolding vm_addr_read_integer
integer_ok d bytes rest vm h b a =
    let found : read_integer vm.addr ≡ some (d, rest) =
      rw (a, b) (read_integer-encode_integer d rest h) in
    rw (found, vm_addr_read_integer)

byte_ok :
    (d : ℕ) (bytes rest : List ℕ) (vm : Vm)
    → bytes ≡ d ∷ []
    → vm.addr ≡ bytes ++ rest
    → vm_addr_read_byte vm ≡ Run.ok d (record vm { addr = rest })
unfolding vm_addr_read_byte
byte_ok d bytes rest vm b a =
    let found : vm.addr ≡ d ∷ rest = rw b at a in rw (found, vm_addr_read_byte)

-- What `address_read` makes of an address that stands for `addr`.
read_back :
    (vm : Vm) (here addr d mode : ℕ) (rest : List ℕ)
    → Stands vm.cache here addr d mode
    → vm.addr ≡ address_bytes vm.cache mode d ++ rest
    → address_read here mode vm ≡ Run.ok addr (record vm { addr = rest })
unfolding address_read
read_back vm here addr d mode rest (self d' e h) a =
    integer_ok d _ rest vm h (ground arith) a ∙ ap (λ x. Run.ok x (record vm { addr = rest })) e
read_back vm here addr d mode rest (from_here d' e h) a =
    rw (integer_ok d _ rest vm h (ground arith) a, e)
read_back vm here addr d mode rest (near d' m x within found e h) a =
    let back : m + 2 - 2 ≡ m = omega arith in
    let tests : ((m + 2 == 0) ≡ false)
        × ((m + 2 == 1) ≡ false)
        × ((leb 2 (m + 2) && ltb m vm.cache.s_near) ≡ true) =
      (ground arith, ground arith, ground arith) in
    rw (back, tests.0, tests.1, tests.2, found, integer_ok d _ rest vm h (ground arith) a, e)
read_back vm here addr d mode rest (same d' m i e within found) a =
    let tests : ((vm.cache.s_near + 2 + m == 0) ≡ false)
        × ((vm.cache.s_near + 2 + m == 1) ≡ false)
        × ((leb 2 (vm.cache.s_near + 2 + m) && ltb (vm.cache.s_near + 2 + m - 2) vm.cache.s_near)
            ≡ false) =
      (ground arith, ground arith, ground arith) in
    let back : vm.cache.s_near + 2 + m - 2 - vm.cache.s_near ≡ m = omega arith in
    let inside : leb (vm.cache.s_same * 256) i ≡ false = ground arith in
    rw (tests.0, tests.1, tests.2, byte_ok d _ rest vm (ground arith) a, back, ← e, inside, found)

Stands-mode :
    (cache : Cache) (here addr d mode : ℕ)
    → cache.s_near + 2 + cache.s_same ≤ 256
    → Stands cache here addr d mode
    → mode < 256
Stands-mode cache here addr d mode fits (self d' e h) = omega arith
Stands-mode cache here addr d mode fits (from_here d' e h) = omega arith
Stands-mode cache here addr d mode fits (near d' m a within found e h) = omega arith
Stands-mode cache here addr d mode fits (same d' m i e within found) =
    let most : m < cache.s_same = omega (arith, e, within) in omega (arith, most, fits)

-- If the modes of a valid cache fit a `uint8_t`, an address can be encoded, and the machine decodes
-- the bytes of the encoded address to the address. Its cache ends equal to that of the encoder,
-- which is valid and has the address entered in each of its arrays that is not empty.
pub vm_addr_decode-addr_encode :
    (vm : Vm) (addr here : ℕ) (rest : List ℕ)
    → addr < u32_mod
    → here < u32_mod
    → IsValid vm.cache
    → vm.cache.s_near + 2 + vm.cache.s_same ≤ 256
    → (d : ℕ) × (mode : ℕ) × (cache : Cache) × (addr_encode vm.cache addr here
        ≡ some (d, mode, cache))
      × (mode < 256)
      × (vm_addr_decode here mode (record vm { addr = address_bytes vm.cache mode d ++ rest })
          ≡ Run.ok addr (record vm { addr = rest; cache = cache }))
      × IsValid cache
      × IsUpdated vm.cache addr cache
unfolding vm_addr_decode addr_encode
vm_addr_decode-addr_encode vm addr here rest h k v fits =
    let (d, mode) = pick_best vm.cache addr here in
    let stands = pick_best-Stands vm.cache here addr h k v in
    let (cache, e, valid, updated) = cache_update-IsUpdated vm.cache addr h v in
    let small = Stands-mode vm.cache here addr d mode fits stands in
    let byte : mode % 256 ≡ mode = omega (arith, small) in
    (
      d,
      mode,
      cache,
      rw e,
      small,
      rw (
        byte,
        read_back (record vm { addr = address_bytes vm.cache mode d ++ rest }) here addr d mode rest
            stands refl,
        e,
      ),
      valid,
      updated,
    )

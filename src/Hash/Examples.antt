-- ===== src/Hash/Examples.antt =====
-- Runs and instances for the rolling hash.
use diagonal.Base.{ℕ, ◌≡◌, refl, some, List, [], ◌∷◌, arith, and_then}
use diagonal.Hash.{
  hash32_adler32, adler32_loop, rollinghash32_collect, rollinghash32_new_rabin_karp,
}
use diagonal.Hash.Rolling.{hashes, rollinghash32_collect-hashes}

abbrev five : List ℕ
five = 1 ∷ 2 ∷ 3 ∷ 4 ∷ 5 ∷ []

-- On a machine whose byte order is that of the network.
adler32-five : hash32_adler32 (λ x. x) five ≡ 0x280010
unfolding hash32_adler32 adler32_loop
adler32-five = refl

rollinghash32_collect-hashes_example :
    and_then (rollinghash32_new_rabin_karp five 2 257) rollinghash32_collect
    ≡ some (hashes five 257 1 4 0)
rollinghash32_collect-hashes_example =
    rollinghash32_collect-hashes five 257 1 (omega arith) (omega arith)

-- ===== src/Vcdiff/Cache.antt =====
-- The address cache (`struct diag_vcdiff_cache` and the functions `cache_*` of src/vcdiff.c).
pub mod Laws
use diagonal.Base.{
  ℕ, ◌+◌, ◌*◌, ◌%◌, ◌<◌, ◌^◌, ◌≡◌, List, Option, none, some, All, ltb, if◌then◌else◌, and_then,
  length, set, replicate,
}
use diagonal.Base.Word.{u32_mod}

pub record Cache : Type 0 where
  pub near : List ℕ
  pub s_near : ℕ
  pub next_slot : ℕ
  pub same : List ℕ
  pub s_same : ℕ

unfoldable pub cache_init : ℕ → ℕ → Cache
cache_init s_near s_same = record {
  near = replicate s_near 0;
  s_near = s_near;
  next_slot = 0;
  same = replicate (s_same * 256) 0;
  s_same = s_same;
}

-- `xs[i] = v`, and nothing where that is outside the array.
unfoldable pub put_address : List ℕ → ℕ → ℕ → Option (List ℕ)
put_address xs i v = if ltb i (length xs) then some (set xs i v) else none

unfoldable pub update_near : Cache → ℕ → Option Cache
update_near cache addr =
    if ltb 0 cache.s_near
    then and_then (put_address cache.near cache.next_slot addr) (λ near.
      some (record cache { near = near; next_slot = (cache.next_slot + 1) % cache.s_near }))
    else some cache

unfoldable pub update_same : Cache → ℕ → Option Cache
update_same cache addr =
    if ltb 0 cache.s_same
    then and_then (put_address cache.same (addr % (cache.s_same * 256)) addr)
        (λ same. some (record cache { same = same }))
    else some cache

unfoldable pub cache_update : Cache → ℕ → Option Cache
cache_update cache addr = and_then (update_near cache addr) (λ cache'. update_same cache' addr)

-- The two arrays have their sizes and hold `uint32_t` values, the slot is one of `near`, and the
-- sizes are bytes.
pub record IsValid (cache : Cache) : Type 0 where
  pub near_size : length cache.near ≡ cache.s_near
  pub same_size : length cache.same ≡ cache.s_same * 256
  pub slot_within : 0 < cache.s_near → cache.next_slot < cache.s_near
  pub near_fits : cache.s_near < 256
  pub same_fits : cache.s_same < 256
  pub near_words : All (λ a. a < u32_mod) cache.near
  pub same_words : All (λ a. a < u32_mod) cache.same

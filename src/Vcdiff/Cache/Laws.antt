-- ===== src/Vcdiff/Cache/Laws.antt =====
-- Every operation on the cache keeps its arrays and its slot in order.
use diagonal.Base.{
  ℕ, zero, suc, ◌+◌, ◌*◌, ◌%◌, ◌<◌, ◌≡◌, ◌≢◌, refl, subst, ◌∙◌, Option, some, List, [], ◌∷◌, All,
  ltb, lt→ltb, set, replicate, arith, length, length-set, length-replicate, get_elem?,
  get_elem?-set_self, get_elem?-set_ne, inl, inr, Bool-cases,
}
use diagonal.Base.Word.{u32_mod}
use diagonal.Vcdiff.Cache.{
  Cache, IsValid, cache_init, cache_update, put_address, update_near, update_same,
}

All-set : (P : ℕ → Type 0) (xs : List ℕ) (i v : ℕ) → All P xs → P v → All P (set xs i v)
All-set P [] i v h p = h
All-set P (x ∷ xs) zero v h p = (p, h.1)
All-set P (x ∷ xs) (suc i) v h p = (h.0, All-set P xs i v h.1 p)

All-replicate : (P : ℕ → Type 0) (n v : ℕ) → P v → All P (replicate n v)
All-replicate P zero v p = tt
All-replicate P (suc n) v p = (p, All-replicate P n v p)

pub cache_init-IsValid :
    (s_near s_same : ℕ) → s_near < 256 → s_same < 256 → IsValid (cache_init s_near s_same)
unfolding cache_init
cache_init-IsValid s_near s_same h k = record {
  near_size = length-replicate s_near 0;
  same_size = length-replicate (s_same * 256) 0;
  slot_within = λ p. p;
  near_fits = h;
  same_fits = k;
  near_words = All-replicate _ s_near 0 (omega arith);
  same_words = All-replicate _ (s_same * 256) 0 (omega arith);
}

-- `v` stands at `i`, and everything else as before.
pub record IsStored (xs : List ℕ) (i v : ℕ) (ys : List ℕ) : Type 0 where
  pub stored : get_elem? ys i ≡ some v
  pub kept : (j : ℕ) → i ≢ j → get_elem? ys j ≡ get_elem? xs j

put_address-IsStored :
    (xs : List ℕ) (i v : ℕ)
    → i < length xs
    → (put_address xs i v ≡ some (set xs i v)) × IsStored xs i v (set xs i v)
unfolding put_address
put_address-IsStored xs i v h = (
  rw (lt→ltb i (length xs) h),
  record {
    stored = get_elem?-set_self xs i v h;
    kept = λ j other. get_elem?-set_ne xs i j v other;
  },
)

-- The address stands in the slot of `near`, which moves on, and at its place in `same`.
pub record IsUpdated (cache : Cache) (addr : ℕ) (cache' : Cache) : Type 0 where
  pub same_sizes : (cache'.s_near ≡ cache.s_near) × (cache'.s_same ≡ cache.s_same)
  pub near_stored : 0 < cache.s_near → IsStored cache.near cache.next_slot addr cache'.near
  pub slot_moved : 0 < cache.s_near → cache'.next_slot ≡ (cache.next_slot + 1) % cache.s_near
  pub same_stored :
      0 < cache.s_same → IsStored cache.same (addr % (cache.s_same * 256)) addr cache'.same

near_stored-IsValid :
    (cache : Cache) (addr : ℕ)
    → addr < u32_mod
    → 0 < cache.s_near
    → IsValid cache
    → IsValid (record cache {
      near = set cache.near cache.next_slot addr;
      next_slot = (cache.next_slot + 1) % cache.s_near;
    })
near_stored-IsValid cache addr h pos v = record {
  near_size = length-set cache.near cache.next_slot addr ∙ v.near_size;
  same_size = v.same_size;
  slot_within = λ p. omega arith;
  near_fits = v.near_fits;
  same_fits = v.same_fits;
  near_words = All-set _ cache.near cache.next_slot addr v.near_words h;
  same_words = v.same_words;
}

same_stored-IsValid :
    (cache : Cache) (i addr : ℕ)
    → addr < u32_mod
    → IsValid cache
    → IsValid (record cache { same = set cache.same i addr })
same_stored-IsValid cache i addr h v = record {
  near_size = v.near_size;
  same_size = length-set cache.same i addr ∙ v.same_size;
  slot_within = v.slot_within;
  near_fits = v.near_fits;
  same_fits = v.same_fits;
  near_words = v.near_words;
  same_words = All-set _ cache.same i addr v.same_words h;
}

-- What `update_near` leaves alone, and what it does.
record IsNear (cache : Cache) (addr : ℕ) (o : Option Cache) : Type 0 where
  after : Cache
  result : o ≡ some after
  valid : IsValid after
  same_kept :
      (after.same ≡ cache.same) × (after.s_near ≡ cache.s_near) × (after.s_same ≡ cache.s_same)
  near_stored : 0 < cache.s_near → IsStored cache.near cache.next_slot addr after.near
  slot_moved : 0 < cache.s_near → after.next_slot ≡ (cache.next_slot + 1) % cache.s_near

update_near-IsNear :
    (cache : Cache) (addr : ℕ)
    → addr < u32_mod
    → IsValid cache
    → IsNear cache addr (update_near cache addr)
unfolding update_near
update_near-IsNear cache addr h v = elim (Bool-cases (ltb 0 cache.s_near)) [
  | inl e ↦
      let pos : 0 < cache.s_near = ground arith in
      let (fits, stored) =
        put_address-IsStored cache.near cache.next_slot addr
          (omega (arith, v.slot_within pos, v.near_size)) in
      record {
        after = _;
        result = rw (e, fits);
        valid = near_stored-IsValid cache addr h pos v;
        same_kept = (refl, refl, refl);
        near_stored = λ _. stored;
        slot_moved = λ _. refl;
      }
  | inr e ↦
      let empty : cache.s_near ≡ 0 = ground arith in
      record {
        after = cache;
        result = rw e;
        valid = v;
        same_kept = (refl, refl, refl);
        near_stored = λ pos. absurd (omega (arith, pos, empty));
        slot_moved = λ pos. absurd (omega (arith, pos, empty));
      }
]

-- An update of a valid cache by a `uint32_t` stores within both arrays: it enters the address in the
-- slot of the near array, which moves on by one, and at its place in the same array, where these are
-- not empty, leaves all other entries as they are, and gives a valid cache.
pub cache_update-IsUpdated :
    (cache : Cache) (addr : ℕ)
    → addr < u32_mod
    → IsValid cache
    → (cache' : Cache) × (cache_update cache addr ≡ some cache')
      × IsValid cache'
      × IsUpdated cache addr cache'
unfolding cache_update update_same
cache_update-IsUpdated cache addr h v =
    let n = update_near-IsNear cache addr h v in
    let (same, s_near, s_same) = n.same_kept in
    elim (Bool-cases (ltb 0 n.after.s_same)) [
      | inl e ↦
          let pos : 0 < n.after.s_same = ground arith in
          let i = addr % (n.after.s_same * 256) in
          let size : 0 < n.after.s_same * 256 = omega arith in
          let within : i < n.after.s_same * 256 = grind arith in
          let (fits, stored) =
            put_address-IsStored n.after.same i addr (omega (arith, within, n.valid.same_size)) in
          (
            record n.after { same = set n.after.same i addr },
            rw (n.result, e, fits),
            same_stored-IsValid n.after i addr h n.valid,
            record {
              same_sizes = (s_near, s_same);
              near_stored = n.near_stored;
              slot_moved = n.slot_moved;
              same_stored = λ _.
                  subst
                    (λ xs. IsStored xs (addr % (cache.s_same * 256)) addr (set n.after.same i addr))
                    same
                    (subst
                      (λ s. IsStored n.after.same (addr % (s * 256)) addr (set n.after.same i addr))
                      s_same stored);
            },
          )
      | inr e ↦
          let empty : n.after.s_same ≡ 0 = ground arith in
          (
            n.after,
            rw (n.result, e),
            n.valid,
            record {
              same_sizes = (s_near, s_same);
              near_stored = n.near_stored;
              slot_moved = n.slot_moved;
              same_stored = λ pos. absurd (omega (arith, pos, empty, s_same));
            },
          )
    ]

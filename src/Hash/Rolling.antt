-- ===== src/Hash/Rolling.antt =====
-- The rolling hash gives the same values as hashing every window from scratch.
use diagonal.Base.{
  ℕ, zero, suc, ◌+◌, ◌-◌, ◌*◌, ◌%◌, ◌^◌, ◌≤◌, ◌<◌, ◌≡◌, refl, sym, ap, ◌∙◌, some, List, [], ◌∷◌,
  ◌++◌, arith, and_then, lt→ltb, length, take, drop, get_elem?, get_elem?_of_lt, length-take,
  length-drop,
}
use diagonal.Base.Slices.{slice, drop_cons, get_elem?-drop, take-suc}
use diagonal.Base.Word.{u32_mod}
use native.Mathlib.Nat.{mod-add-mod, mul_comm}
use diagonal.Hash.{
  RollingHash32, hash32_rabin_karp, rabin_karp_init32, rabin_karp_roll32, new_rolling_hash,
  rollinghash32_new_rabin_karp, collect_loop, rollinghash32_collect,
}
use diagonal.Hash.Polynomial.{
  number, mod-mul-mod, hash32_rabin_karp-number, number-append, number-lead, factor_loop-pow,
}

-- Removing the leading digit of weight `f` in words.
remove_lead :
    (t f p : ℕ)
    → ((t * f + p) % u32_mod + u32_mod - t * (f % u32_mod) % u32_mod) % u32_mod ≡ p % u32_mod
remove_lead t f p =
    let same : t * (f % u32_mod) % u32_mod ≡ t * f % u32_mod =
      ap (λ x. x % u32_mod) (mul_comm t (f % u32_mod))
      ∙ mod-mul-mod f t u32_mod
      ∙ ap (λ x. x % u32_mod) (mul_comm f t) in
    rw same (omega arith)

roll_value :
    (t f p base next : ℕ)
    → (((t * f + p) % u32_mod + u32_mod - t * (f % u32_mod) % u32_mod) % u32_mod * base % u32_mod
          + next)
        % u32_mod
      ≡ (p * base + next) % u32_mod
roll_value t f p base next =
    rw (remove_lead t f p, mod-mul-mod p base u32_mod) (mod-add-mod (p * base) u32_mod next)

-- What one roll makes of the hash, where `out` leaves the window and `next` enters it.
abbrev rolled : RollingHash32 → ℕ → ℕ → RollingHash32
rolled rh out next = record rh {
  value =
      ((rh.value + u32_mod - out * rh.factor % u32_mod) % u32_mod * rh.base % u32_mod + next)
      % u32_mod;
  head = rh.head + 1;
  tail = rh.tail + 1;
}

roll_ok :
    (rh : RollingHash32) (out next : ℕ)
    → get_elem? rh.bytes rh.tail ≡ some out
    → get_elem? rh.bytes rh.head ≡ some next
    → rabin_karp_roll32 rh ≡ some (rolled rh out next)
unfolding rabin_karp_roll32
roll_ok rh out next e e' = rw (e, rabin_karp_roll32) (rw (e', rabin_karp_roll32))

module _ (bytes : List ℕ) (base k : ℕ) where
  -- the window at `i` has `k + 1` bytes
  abbrev window : ℕ → List ℕ
  window i = slice bytes i (suc k)

  pub record IsAt (i : ℕ) (rh : RollingHash32) : Type 0 where
    pub same_bytes : rh.bytes ≡ bytes
    same_base : rh.base ≡ base
    at_tail : rh.tail ≡ i
    at_head : rh.head ≡ i + suc k
    weight : rh.factor ≡ base ^ k % u32_mod
    pub hashed : rh.value ≡ number base 0 (window i) % u32_mod

  window_split :
      (i : ℕ)
      → i + suc k < length bytes
      → (out : ℕ) × (next : ℕ) × (get_elem? bytes i ≡ some out)
        × (get_elem? bytes (i + suc k) ≡ some next)
        × (window i ≡ out ∷ take k (drop (i + 1) bytes))
        × (window (i + 1) ≡ take k (drop (i + 1) bytes) ++ (next ∷ []))
        × (length (take k (drop (i + 1) bytes)) ≡ k)
  window_split i h =
      let (out, e) = get_elem?_of_lt bytes i (omega arith) in
      let (next, e') = get_elem?_of_lt bytes (i + suc k) h in
      let place : i + 1 + k ≡ i + suc k = omega arith in
      (
        out,
        next,
        e,
        e',
        ap (take (suc k)) (drop_cons bytes i out e),
        take-suc (drop (i + 1) bytes) k next (get_elem?-drop bytes (i + 1) k ∙ rw place e'),
        omega (arith, length-take k (drop (i + 1) bytes), length-drop (i + 1) bytes),
      )

  pub roll-IsAt :
      (i : ℕ) (rh : RollingHash32)
      → i + suc k < length bytes
      → IsAt i rh
      → (rh' : RollingHash32) × (rabin_karp_roll32 rh ≡ some rh') × IsAt (i + 1) rh'
  roll-IsAt i rh h a =
      let (out, next, e, e', w, w', len) = window_split i h in
      let mid = take k (drop (i + 1) bytes) in
      let before : number base 0 (window i) ≡ out * base ^ k + number base 0 mid =
        (ap (number base 0) w
          ∙ number-lead base (0 * base + out) mid
          ∙ ap (λ n. (0 * base + out) * base ^ n + number base 0 mid) len
          ∙ omega arith) in
      let after : number base 0 (window (i + 1)) ≡ number base 0 mid * base + next =
        ap (number base 0) w' ∙ number-append base 0 mid (next ∷ []) in
      (
        rolled rh out next,
        roll_ok rh out next (rw (a.same_bytes, a.at_tail) e) (rw (a.same_bytes, a.at_head) e'),
        record {
          same_bytes = a.same_bytes;
          same_base = a.same_base;
          at_tail = omega (arith, a.at_tail);
          at_head = omega (arith, a.at_head);
          weight = a.weight;
          hashed =
              rw (a.hashed, a.weight, a.same_base, before, after)
                (roll_value out (base ^ k) (number base 0 mid) base next);
        },
      )

  -- The hashes of `n` windows from the one at `i` on, each computed from scratch.
  abbrev pub hashes : ℕ → ℕ → List ℕ
  hashes zero i = []
  hashes (suc n) i = hash32_rabin_karp (window i) base ∷ hashes n (i + 1)

  collect_loop-hashes :
      (n i : ℕ) (rh : RollingHash32)
      → i + n + suc k ≤ length bytes
      → IsAt i rh
      → collect_loop n rh ≡ some (hashes n (i + 1))
  unfolding collect_loop
  collect_loop-hashes zero i rh h a = refl
  collect_loop-hashes (suc n) i rh h a =
      let (rh', e, a') = roll-IsAt i rh (omega arith) a in
      let value : rh'.value ≡ hash32_rabin_karp (window (i + 1)) base =
        a'.hashed ∙ sym (hash32_rabin_karp-number (window (i + 1)) base) in
      rw (e, collect_loop)
        (rw (collect_loop-hashes n (i + 1) rh' (omega arith) a', collect_loop) (rw value))

  pub init-IsAt :
      suc k ≤ length bytes → IsAt 0 (rabin_karp_init32 (new_rolling_hash bytes (suc k) base))
  unfolding rabin_karp_init32 new_rolling_hash
  init-IsAt h = record {
    same_bytes = refl;
    same_base = refl;
    at_tail = refl;
    at_head = omega arith;
    weight =
        (let rounds : suc k - 1 ≡ k = omega arith in
          let one : 1 * base ^ k ≡ base ^ k = omega arith in
          rw rounds (factor_loop-pow k base 1 ∙ ap (λ t. t % u32_mod) one));
    hashed = hash32_rabin_karp-number (window 0) base;
  }

  -- For a base that is not 0 and a window of `k + 1` bytes that fits the data
  -- `diag_rollinghash32_collect` reads nothing past its end and returns the hash of every window, in
  -- order: rolling agrees with hashing from scratch.
  pub rollinghash32_collect-hashes :
      0 < base
      → suc k ≤ length bytes
      → and_then (rollinghash32_new_rabin_karp bytes (suc k) base) rollinghash32_collect
        ≡ some (hashes (suc (length bytes - suc k)) 0)
  unfolding rollinghash32_collect rollinghash32_new_rabin_karp new_rolling_hash
  rollinghash32_collect-hashes pos h =
      let start = init-IsAt h in
      let first = start.hashed ∙ sym (hash32_rabin_karp-number (window 0) base) in
      let rest = collect_loop-hashes (length bytes - suc k) 0 _ (omega arith) start in
      rw (lt→ltb 0 base pos) (rw (rest, rollinghash32_collect) (rw first))

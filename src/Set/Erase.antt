-- ===== src/Set/Erase.antt =====
-- `diag_set_erase` of src/set.c.
use diagonal.Base.{
  ℕ, zero, suc, ◌+◌, ◌≤◌, ◌<◌, ◌≡◌, refl, sym, ap, subst, ◌∙◌, Bool, true, false, Option, none,
  some, List, [], ◌∷◌, arith, ◌==◌, ltb, ◌&&◌, not, length, get_elem?, All, inl, inr, Bool-cases,
  Option-cases,
}
use diagonal.Base.Word.{size_mod, sub_size}
use diagonal.Base.Order.{IsRanked}
use Prim.Native.Nat.Ordering.{eq}
use Prim.Native.Nat.{Ordering}
use diagonal.Set.{DiagSet, Library, set_contains, remove_at, set_erase}
use diagonal.Set.Occurs.{
  count_if-le, is_eq-eq, bit, bool_dropped, same, occurs, IsOrdered, occurs-same, occurs_pos,
  IsLibrary, IsSetOf, contains-occurs,
}

module _ {A : Type 0} where
  some-injective : (a b : A) → some a ≡ some b → a ≡ b
  some-injective a b q = cc

  none-some : (a : A) → ◌≡◌ {A = Option A} none (some a) → ⊥
  none-some a q = cc

module _ {A : Type 0} (cmp : A → A → Ordering) (ranked : IsRanked cmp) (lib : Library A) where
  -- `t` holds what `s` holds but `x`.
  abbrev Drops : DiagSet A → A → DiagSet A → Type 0
  Drops s x t =
      IsSetOf cmp ranked lib t
      × ((y : A) → set_contains lib t y ≡ set_contains lib s y && not (same cmp y x))

  All-remove_at : (P : A → Type 0) (i : ℕ) (xs : List A) → All P xs → All P (remove_at i xs)
  All-remove_at P i [] a = tt
  All-remove_at P zero (x ∷ xs) (p, a) = a
  All-remove_at P (suc i) (x ∷ xs) (p, a) = (p, All-remove_at P i xs a)

  remove_at-IsOrdered :
      (i : ℕ) (xs : List A) → IsOrdered cmp ranked xs → IsOrdered cmp ranked (remove_at i xs)
  remove_at-IsOrdered i [] o = tt
  remove_at-IsOrdered zero (x ∷ xs) (h, o) = o
  remove_at-IsOrdered (suc i) (x ∷ xs) (h, o) =
      (All-remove_at (λ y. ranked.rank x ≤ ranked.rank y) i xs h, remove_at-IsOrdered i xs o)

  occurs-remove_at :
      (i : ℕ) (xs : List A) (z y : A)
      → get_elem? xs i ≡ some z
      → occurs cmp y xs ≡ occurs cmp y (remove_at i xs) + bit (same cmp y z)
  occurs-remove_at i [] z y h = absurd (none-some z h)
  occurs-remove_at zero (x ∷ xs) z y h =
      let e = some-injective x z h in
      elim (Bool-cases (same cmp y x)) [
        | inl k ↦ rw (← e, k) (omega arith)
        | inr k ↦ rw (← e, k) (omega arith)
      ]
  occurs-remove_at (suc i) (x ∷ xs) z y h = elim (Bool-cases (same cmp y x)) [
    | inl k ↦ rw k (omega (arith, occurs-remove_at i xs z y h))
    | inr k ↦ rw k (occurs-remove_at i xs z y h)
  ]

  length-remove_at :
      (i : ℕ) (xs : List A) (z : A)
      → get_elem? xs i ≡ some z
      → length xs ≡ length (remove_at i xs) + 1
  length-remove_at i [] z h = absurd (none-some z h)
  length-remove_at zero (x ∷ xs) z h = omega arith
  length-remove_at (suc i) (x ∷ xs) z h = omega (arith, length-remove_at i xs z h)

  -- The answer of the erasure, from what is held.
  bit-set_contains :
      IsLibrary cmp ranked lib
      → (s : DiagSet A) (x : A) → IsSetOf cmp ranked lib s
      → (b : Bool) → ltb 0 (occurs cmp x s.arr) ≡ b
      → bit b ≡ bit (set_contains lib s x)
  bit-set_contains l s x v b h = ap bit (sym h ∙ sym (contains-occurs cmp ranked lib s x l v))

  set_erase_lem :
      IsLibrary cmp ranked lib
      → (s : DiagSet A) (x : A) → IsSetOf cmp ranked lib s
      → length s.arr < size_mod
      → (r : DiagSet A × ℕ) → set_erase lib s x ≡ r
      → Drops s x r.0 × (r.1 ≡ bit (set_contains lib s x))
      → IsSetOf cmp ranked lib (set_erase lib s x).0
        × ((y : A)
            → set_contains lib (set_erase lib s x).0 y ≡ set_contains lib s y && not (same cmp y x))
        × ((set_erase lib s x).1 ≡ bit (set_contains lib s x))
  set_erase_lem l s x v fits r out ((w, drops), said) = (
    subst (λ q. IsSetOf cmp ranked lib q.0) (sym out) w,
    subst (λ q. (y : A) → set_contains lib q.0 y ≡ set_contains lib s y && not (same cmp y x))
        (sym out) drops,
    ap (λ q. q.1) out ∙ said,
  )

  missing-Drops :
      (l : IsLibrary cmp ranked lib) (s : DiagSet A) (x : A)
      → IsSetOf cmp ranked lib s
      → occurs cmp x s.arr ≡ 0
      → Drops s x s
  missing-Drops l s x v none_held = (v, dropped)
    where
      dropped : (y : A) → set_contains lib s y ≡ set_contains lib s y && not (same cmp y x)
      dropped y =
          contains-occurs cmp ranked lib s y l v
          ∙ left (same cmp y x) refl
          ∙ ap (λ b. b && not (same cmp y x)) (sym (contains-occurs cmp ranked lib s y l v))
        where
          left :
              (b : Bool)
              → same cmp y x ≡ b
              → ltb 0 (occurs cmp y s.arr) ≡ ltb 0 (occurs cmp y s.arr) && not (same cmp y x)
          left true h =
              let e : occurs cmp y s.arr ≡ 0 =
                occurs-same cmp ranked y x s.arr (is_eq-eq (cmp y x) h) ∙ none_held in
              rw (h, e) (ground arith)
          left false h = rw h (ground arith)

  held-Drops :
      (l : IsLibrary cmp ranked lib) (s : DiagSet A) (x z : A) (i : ℕ)
      → IsSetOf cmp ranked lib s
      → get_elem? s.arr i ≡ some z
      → cmp x z ≡ eq
      → length s.arr < size_mod
      → Drops s x (record { size = sub_size s.size 1; arr = remove_at i s.arr })
  held-Drops l s x z i v at e fits = (
    w,
    λ y.
        contains-occurs cmp ranked lib
          (record { size = sub_size s.size 1; arr = remove_at i s.arr }) y l w
        ∙ bool_dropped (occurs cmp y s.arr) (occurs cmp y (remove_at i s.arr)) (same cmp y x)
            (counts y) (v.once y)
        ∙ ap (λ b. b && not (same cmp y x)) (sym (contains-occurs cmp ranked lib s y l v)),
  )
    where
      alike : (y : A) → same cmp y z ≡ same cmp y x
      alike y = ground (arith, e, ranked.cmp_rank x z, ranked.cmp_rank y x, ranked.cmp_rank y z)

      counts : (y : A) → occurs cmp y s.arr ≡ occurs cmp y (remove_at i s.arr) + bit (same cmp y x)
      counts y =
          occurs-remove_at i s.arr z y at
          ∙ ap (λ b. occurs cmp y (remove_at i s.arr) + bit b) (alike y)

      w : IsSetOf cmp ranked lib (record { size = sub_size s.size 1; arr = remove_at i s.arr })
      w = record {
        sized = omega (arith, v.sized, fits, length-remove_at i s.arr z at);
        ordered = remove_at-IsOrdered i s.arr v.ordered;
        once = λ y. omega (arith, v.once y, counts y);
      }

  -- Erasing an element from a set gives a set that contains what it contained but that element, and
  -- returns 1 if it did contain it and 0 if not, if the count fits a size_t.
  pub set_erase-contains :
      IsLibrary cmp ranked lib
      → (s : DiagSet A) (x : A) → IsSetOf cmp ranked lib s
      → length s.arr < size_mod
      → IsSetOf cmp ranked lib (set_erase lib s x).0
        × ((y : A)
            → set_contains lib (set_erase lib s x).0 y ≡ set_contains lib s y && not (same cmp y x))
        × ((set_erase lib s x).1 ≡ bit (set_contains lib s x))
  unfolding set_erase set_contains
  set_erase-contains l s x v fits = elim (Bool-cases (s.size == 0)) [
    | inl empty ↦
        let out : set_erase lib s x ≡ (s, 0) = rw empty in
        let none_held : occurs cmp x s.arr ≡ 0 =
          ground (arith, count_if-le (same cmp x) s.arr, v.sized, empty) in
        set_erase_lem l s x v fits (s, 0) out
          (
            missing-Drops l s x v none_held,
            bit-set_contains l s x v false (ground (arith, none_held)),
          )
    | inr more ↦ elim (Option-cases (lib.bsearch x s.arr)) [
      | inl missed ↦
          let out : set_erase lib s x ≡ (s, 0) = rw (more, missed) in
          let none_held = l.misses x s.arr v.ordered missed in
          set_erase_lem l s x v fits (s, 0) out
            (
              missing-Drops l s x v none_held,
              bit-set_contains l s x v false (ground (arith, none_held)),
            )
      | inr (i, found) ↦
          let (y, at, e) = l.finds x s.arr i v.ordered found in
          let t : DiagSet A = record { size = sub_size s.size 1; arr = remove_at i s.arr } in
          let out : set_erase lib s x ≡ (t, 1) = rw (more, found) in
          let held = occurs_pos cmp ranked x y s.arr i at e in
          set_erase_lem l s x v fits (t, 1) out
            (held-Drops l s x y i v at e fits, bit-set_contains l s x v true (ground (arith, held)))
    ]
  ]

-- ===== src/Set/Insert.antt =====
-- `diag_set_insert` of src/set.c.
use diagonal.Base.{
  ◌+◌, ◌<◌, ◌≡◌, refl, sym, ap, subst, ◌∙◌, [], ◌∷◌, ◌++◌, arith, ◌==◌, ltb, ◌||◌, length,
  length-append, inl, inr, Bool-cases, Option-cases,
}
use diagonal.Base.Word.{size_mod, add_size}
use diagonal.Base.Order.{IsRanked}
use Prim.Native.Nat.{Ordering}
use diagonal.Set.{DiagSet, Library, set_contains, set_insert}
use diagonal.Set.Occurs.{
  count_if-append, count_if-le, is_eq-eq, bit, bool_added, same, occurs, occurs-one, IsOrdered,
  occurs-same, occurs_pos, occurs_le, IsLibrary, IsSetOf, contains-occurs,
}

module _ {A : Type 0} (cmp : A → A → Ordering) (ranked : IsRanked cmp) (lib : Library A) where
  -- `t` holds `x` and what `s` holds.
  abbrev Adds : DiagSet A → A → DiagSet A → Type 0
  Adds s x t =
      IsSetOf cmp ranked lib t
      × ((y : A) → set_contains lib t y ≡ same cmp y x || set_contains lib s y)

  missing-Adds :
      (l : IsLibrary cmp ranked lib) (s t : DiagSet A) (x : A)
      → IsSetOf cmp ranked lib s
      → t.size ≡ length t.arr
      → IsOrdered cmp ranked t.arr
      → occurs cmp x s.arr ≡ 0
      → ((y : A) → occurs cmp y t.arr ≡ occurs cmp y s.arr + bit (same cmp y x))
      → Adds s x t
  missing-Adds l s t x v sized ordered lacks adds =
      let w : IsSetOf cmp ranked lib t = record {
        sized = sized;
        ordered = ordered;
        once = occurs_le cmp ranked s.arr t.arr x v.once lacks adds;
      } in
      (
        w,
        λ y.
            contains-occurs cmp ranked lib t y l w
            ∙ ap (ltb 0) (adds y)
            ∙ bool_added (occurs cmp y s.arr) (same cmp y x)
            ∙ ap (λ b. same cmp y x || b) (sym (contains-occurs cmp ranked lib s y l v)),
      )

  held-Adds :
      (l : IsLibrary cmp ranked lib) (s : DiagSet A) (x : A)
      → IsSetOf cmp ranked lib s
      → 0 < occurs cmp x s.arr
      → Adds s x s
  held-Adds l s x v there = (v, held)
    where
      held : (y : A) → set_contains lib s y ≡ same cmp y x || set_contains lib s y
      held y = elim (Bool-cases (same cmp y x)) [
        | inl h ↦
            let more = occurs-same cmp ranked y x s.arr (is_eq-eq (cmp y x) h) in
            rw h (contains-occurs cmp ranked lib s y l v ∙ ground (arith, more, there))
        | inr h ↦ rw h
      ]

  -- Inserting an element into a set gives a set that contains it and what it contained, if there is
  -- room for the count.
  pub set_insert-contains :
      IsLibrary cmp ranked lib
      → (s : DiagSet A) (x : A) → IsSetOf cmp ranked lib s
      → length s.arr + 1 < size_mod
      → IsSetOf cmp ranked lib (set_insert lib s x).0
        × ((y : A)
            → set_contains lib (set_insert lib s x).0 y ≡ same cmp y x || set_contains lib s y)
  unfolding set_insert
  set_insert-contains l s x v fits = elim (Bool-cases (s.size == 0)) [
    | inl empty ↦
        let none_held : (y : A) → occurs cmp y s.arr ≡ 0 =
          λ y. ground (arith, count_if-le (same cmp y) s.arr, v.sized, empty) in
        let t : DiagSet A = record { size = 1; arr = x ∷ [] } in
        let out : (set_insert lib s x).0 ≡ t = rw empty in
        subst (Adds s x) (sym out) (
          missing-Adds l s t x v refl (tt, tt) (none_held x)
            (λ y. occurs-one cmp y x ∙ omega (arith, none_held y)))
    | inr more ↦ elim (Option-cases (lib.bsearch x s.arr)) [
      | inl missed ↦
          let ys = s.arr ++ (x ∷ []) in
          let t : DiagSet A = record { size = add_size s.size 1; arr = lib.qsort ys } in
          let out : (set_insert lib s x).0 ≡ t = rw (more, missed) in
          subst (Adds s x) (sym out) (
            missing-Adds l s t x v
              (omega (arith, v.sized, fits, l.length-qsort ys, length-append s.arr (x ∷ [])))
              (l.orders ys) (l.misses x s.arr v.ordered missed)
              (λ y. omega (
                arith,
                l.keeps (same cmp y) ys,
                count_if-append (same cmp y) s.arr (x ∷ []),
                occurs-one cmp y x,
              )))
      | inr (i, found) ↦
          let (y, at, e) = l.finds x s.arr i v.ordered found in
          let out : (set_insert lib s x).0 ≡ s = rw (more, found) in
          subst (Adds s x) (sym out) (held-Adds l s x v (occurs_pos cmp ranked x y s.arr i at e))
    ]
  ]

-- ===== src/Set.antt =====
-- Sets as sorted arrays (src/set.c, src/diagonal/set.h). `bsearch` and `qsort` of the C library are
-- parameters, as is the comparison. The array is the list of its elements in use.
pub mod Occurs
pub mod Insert
pub mod Erase
mod Examples
use diagonal.Base.{
  ℕ, zero, suc, ◌+◌, ◌-◌, ◌≡◌, Bool, true, false, Option, none, some, List, [], ◌∷◌, ◌++◌, ◌==◌,
  if◌then◌else◌, length, take, drop,
}
use diagonal.Base.Word.{add_size, sub_size}

pub record DiagSet (A : Type 0) : Type 0 where
  pub size : ℕ
  pub arr : List A

-- `bsearch` returns the index of the element found, `none` for NULL.
pub record Library (A : Type 0) : Type 0 where
  pub bsearch : A → List A → Option ℕ
  pub qsort : List A → List A

module _ {A : Type 0} where
  abbrev pub set_create : DiagSet A
  set_create = record { size = 0; arr = [] }

  -- `memmove(r, r + 1, s * sizeof(x))`
  abbrev pub remove_at : ℕ → List A → List A
  remove_at i [] = []
  remove_at zero (x ∷ xs) = xs
  remove_at (suc i) (x ∷ xs) = x ∷ remove_at i xs

module _ {A : Type 0} (lib : Library A) where
  pub set_contains : DiagSet A → A → Bool
  set_contains s x =
      if s.size == 0 then false else elim (lib.bsearch x s.arr) [ none ↦ false | some r ↦ true ]

  -- With the index of the element returned, `none` for NULL.
  pub set_insert : DiagSet A → A → DiagSet A × Option ℕ
  set_insert s x =
      if s.size == 0
      then (record { size = 1; arr = x ∷ [] }, none)
      else elim (lib.bsearch x s.arr) [
        | none ↦ (record { size = add_size s.size 1; arr = lib.qsort (s.arr ++ (x ∷ [])) }, none)
        | some r ↦ (s, some r)
      ]

  -- With the result, 1 or 0.
  pub set_erase : DiagSet A → A → DiagSet A × ℕ
  set_erase s x = if s.size == 0 then (s, 0) else elim (lib.bsearch x s.arr) [
    | none ↦ (s, 0)
    | some r ↦ (record { size = sub_size s.size 1; arr = remove_at r s.arr }, 1)
  ]

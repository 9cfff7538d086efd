-- ===== src/Deque/Examples.antt =====
-- Runs of the operations on deques, and instances.
use diagonal.Base.{ℕ, refl, Option, none, some, List, [], ◌∷◌, ◌++◌, arith}
use diagonal.Deque.{
  DequeElem, Deque, Heap, at_first, deque_push, deque_pop, deque_shift, deque_unshift, deque_append,
}
use diagonal.Deque.Chain.{Cell}
use diagonal.Deque.Laws.{IsDeque, Leaves}
use diagonal.Deque.Sequence.{deque_push-Leaves, deque_pop-Leaves}
use diagonal.Deque.Append.{Joins, deque_append-Joins}

abbrev element : ℕ → Option ℕ → Option ℕ → DequeElem
element attr prev next = record { attr = attr; prev = prev; next = next }

-- A deque of 10 and 20 at the addresses 0 and 1, and one of 30 at the address 2.
abbrev heap : Heap
heap = element 10 none (some 1) ∷ element 20 (some 0) none ∷ element 30 none none ∷ []

abbrev two : Deque
two = record { first = some 0; last = some 1; length = 2 }

abbrev one : Deque
one = record { first = some 2; last = some 2; length = 1 }

abbrev two_cells : List Cell
two_cells = (0, 10) ∷ (1, 20) ∷ []

abbrev one_cell : List Cell
one_cell = (2, 30) ∷ []

two-IsDeque : IsDeque at_first heap two two_cells
two-IsDeque = record {
  outer = refl;
  inner = refl;
  counted = refl;
  chain = (
    (element 10 none (some 1), refl, refl, refl, refl),
    ((element 20 (some 0) none, refl, refl, refl, refl), tt),
  );
  distinct = (((λ e. omega (arith, e)), tt), (tt, tt));
}

one-IsDeque : IsDeque at_first heap one one_cell
one-IsDeque = record {
  outer = refl;
  inner = refl;
  counted = refl;
  chain = ((element 30 none none, refl, refl, refl, refl), tt);
  distinct = (tt, tt);
}

deque_push-Leaves_example :
    Leaves at_first heap two_cells (two_cells ++ ((3, 40) ∷ [])) (some 3) (deque_push heap two 40)
    × Leaves at_first heap two_cells ((3, 40) ∷ two_cells) (some 3) (deque_unshift heap two 40)
deque_push-Leaves_example = deque_push-Leaves heap two 40 two_cells two-IsDeque (omega arith)

deque_pop-Leaves_example :
    Leaves at_first heap two_cells ((0, 10) ∷ []) (some 1) (deque_pop heap two)
    × Leaves at_first heap two_cells ((1, 20) ∷ []) (some 0) (deque_shift heap two)
deque_pop-Leaves_example = deque_pop-Leaves heap two two_cells two-IsDeque (omega arith)

deque_append-Joins_example : Joins heap two_cells one_cell (deque_append heap two one)
deque_append-Joins_example =
    deque_append-Joins heap two one two_cells one_cell two-IsDeque one-IsDeque
      (((λ e. omega (arith, e)), tt), (((λ e. omega (arith, e)), tt), tt)) (omega arith)

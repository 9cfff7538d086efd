-- ===== src/Pairs/Examples.antt =====
-- Runs and instances for the lists.
use diagonal.Base.{ℕ, ◌≡◌, refl, Option, none, some, [], ◌∷◌, arith}
use diagonal.Pairs.{
  Heap, Element, pair_at, diag_pair_destroy, diag_list_destroy, diag_list_length, length_loop,
  diag_list_ref, ref_loop, diag_list_reverse,
}
use diagonal.Pairs.Lists.{IsList, reversed, diag_list_reverse-IsList}
use diagonal.Pairs.ToVector.{diag_list_to_vector, diag_list_to_vector-contents}
use diagonal.Vector.{Vector, Outcome, IsValid, contents}

-- (7 8 9), whose pairs stand the other way round.
abbrev heap : Heap
heap =
    some (record { car = 9; cdr = none })
    ∷ some (record { car = 8; cdr = some 0 })
    ∷ some (record { car = 7; cdr = some 1 })
    ∷ []

heap-IsList : IsList heap (some 2) (7 ∷ 8 ∷ 9 ∷ [])
unfolding IsList pair_at
heap-IsList = (2, some 1, refl, refl, (1, some 0, refl, refl, (0, none, refl, refl, refl)))

-- Destroying the list frees its pairs.
destroyed : diag_list_destroy 4 (some 2) heap ≡ some (none ∷ none ∷ none ∷ [])
unfolding diag_list_destroy diag_pair_destroy pair_at
destroyed = refl

-- The length, an element, and the two messages.
elements :
    (diag_list_length heap 4 (some 2) ≡ some 3)
    × (diag_list_ref heap (some 2) 1 ≡ some (Element.element 8))
    × (diag_list_ref heap (some 2) 3 ≡ some Element.exceed_list_length)
    × (diag_list_ref heap none 0 ≡ some Element.list_is_null)
unfolding diag_list_length length_loop diag_list_ref ref_loop pair_at
elements = (refl, refl, refl, refl)

diag_list_reverse-IsList_example :
    (built : Option ℕ) × (after : Heap) × (diag_list_reverse 4 (some 2) heap ≡ some (built, after))
    × IsList after built (reversed (7 ∷ 8 ∷ 9 ∷ []) [])
    × IsList after (some 2) (7 ∷ 8 ∷ 9 ∷ [])
diag_list_reverse-IsList_example =
    diag_list_reverse-IsList heap 4 (some 2) (7 ∷ 8 ∷ 9 ∷ []) (omega arith) heap-IsList

diag_list_to_vector-contents_example :
    (v : Vector) × (diag_list_to_vector heap 4 (some 2) ≡ Outcome.ok v)
    × IsValid v
    × (contents v ≡ some 7 ∷ some 8 ∷ some 9 ∷ [])
diag_list_to_vector-contents_example =
    diag_list_to_vector-contents heap 4 (some 2) (7 ∷ 8 ∷ 9 ∷ []) (omega arith) (omega arith)
      heap-IsList

-- ===== src/Metric/Examples.antt =====
-- Runs and instances for the distances.
use diagonal.Base.{
  ℕ, ◌+◌, ◌≤◌, ◌≡◌, ◌↔◌, refl, true, false, none, some, ◌<◌, ◌⊎◌, List, [], ◌∷◌, arith,
}
use diagonal.Base.Int.{ℤ}
use diagonal.Metric.Levenshtein.{
  levenshtein_chars, elevenshtein_chars, levenshtein_ordered, trim_initial, trim_final, table,
  rows_loop, next_row, row_loop, first_row,
}
use diagonal.Metric.Levenshtein.Scripts.{Edit, old_of, new_of, edits}
use diagonal.Metric.Levenshtein.Laws.{levenshtein_chars-least, elevenshtein_chars-levenshtein_chars}
use diagonal.Metric.Hamming.{hamming_loop, hamming_chars, ehamming_loop, ehamming_chars}
use diagonal.Metric.Hamming.Laws.{below, hamming_chars-distance, ehamming_chars-hamming_chars}

abbrev toned : List ℕ
toned = 116 ∷ 111 ∷ 110 ∷ 101 ∷ 100 ∷ []

abbrev roses : List ℕ
roses = 114 ∷ 111 ∷ 115 ∷ 101 ∷ 115 ∷ []

hamming-toned : hamming_chars false toned roses ≡ 3
unfolding hamming_chars hamming_loop
hamming-toned = refl

ehamming-toned : ehamming_chars false toned roses (ℤ.pos 3) ≡ none
unfolding ehamming_chars ehamming_loop
ehamming-toned = refl

hamming_chars-distance_example :
    ((hamming_chars false toned roses ≡ 0) ↔ (toned ≡ roses))
    × (hamming_chars false toned roses ≡ hamming_chars false roses toned)
    × (hamming_chars false toned []
        ≤ hamming_chars false toned roses + hamming_chars false roses [])
hamming_chars-distance_example = hamming_chars-distance false toned roses [] λ e. cc

ehamming_chars-hamming_chars_example :
    ehamming_chars false toned roses (ℤ.pos 4) ≡ below (hamming_chars false toned roses) 4
ehamming_chars-hamming_chars_example = ehamming_chars-hamming_chars false toned roses 4

abbrev stones : List ℕ
stones = 115 ∷ 116 ∷ 111 ∷ 110 ∷ 101 ∷ 115 ∷ []

levenshtein-toned : levenshtein_chars toned stones ≡ some 2
unfolding levenshtein_chars levenshtein_ordered trim_initial trim_final table rows_loop next_row
    row_loop first_row
levenshtein-toned = refl

levenshtein_chars-least_example :
    (d : ℕ) × (levenshtein_chars toned stones ≡ some d)
    × ((s : List Edit) × (old_of s ≡ toned) × (new_of s ≡ stones) × (edits s ≡ d))
    × ((s : List Edit) → old_of s ≡ toned → new_of s ≡ stones → d ≤ edits s)
levenshtein_chars-least_example = levenshtein_chars-least toned stones (omega arith) (omega arith)

elevenshtein_chars-levenshtein_chars_example :
    (d : ℕ) × (levenshtein_chars toned stones ≡ some d)
    × (((d < 3) × (elevenshtein_chars false toned stones (ℤ.pos 3) ≡ some (some d)))
        ⊎ ((3 ≤ d) × (elevenshtein_chars false toned stones (ℤ.pos 3) ≡ some none)))
elevenshtein_chars-levenshtein_chars_example =
    elevenshtein_chars-levenshtein_chars false toned stones 3 (omega arith) (omega arith) (λ e. cc)

-- A negative bound, here -1: the length for an empty string, 0 for equal pointers, and -1 for equal
-- strings elsewhere.
negative_bound :
    (ehamming_chars false [] roses (ℤ.negsuc 0) ≡ some 5)
    × (ehamming_chars true roses roses (ℤ.negsuc 0) ≡ some 0)
    × (ehamming_chars false roses roses (ℤ.negsuc 0) ≡ none)
unfolding ehamming_chars ehamming_loop
negative_bound = (refl, refl, refl)

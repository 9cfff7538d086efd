-- ===== src/Cluster/Counts.antt =====
-- How many deltas there are, against the Hamming distance.
use diagonal.Base.{
  ℕ, ◌+◌, ◌≤◌, ◌<◌, ◌≡◌, refl, false, some, List, [], ◌∷◌, arith, inl, inr, Bool-cases, ◌==◌,
  length,
}
use diagonal.Base.Word.{size_mod}
use diagonal.Metric.Hamming.{hamming_chars}
use diagonal.Metric.Hamming.Laws.{distance, hamming_loop-distance}
use diagonal.Cluster.{Delta, DeltaCode, diag_delta_hamming_chars}
use diagonal.Cluster.Applied.{deltas_from, diag_delta_hamming_chars-deltas_from}

length-deltas_from_distance :
    (i : ℕ) (x y : List ℕ)
    → (length (deltas_from i x y) ≤ distance x y)
      × (length x ≡ length y → length (deltas_from i x y) ≡ distance x y)
unfolding deltas_from distance
length-deltas_from_distance i [] [] = (omega arith, λ e. refl)
length-deltas_from_distance i [] (y ∷ ys) = (omega arith, λ e. absurd (omega (arith, e)))
length-deltas_from_distance i (x ∷ xs) [] = (omega arith, λ e. absurd (omega (arith, e)))
length-deltas_from_distance i (x ∷ xs) (y ∷ ys) =
    let (most, alike) = length-deltas_from_distance (i + 1) xs ys in
    elim (Bool-cases (x == y)) [
      | inl same ↦ rw same (omega (arith, most), λ e. omega (arith, alike (omega (arith, e))))
      | inr other ↦ rw other (omega (arith, most), λ e. omega (arith, alike (omega (arith, e))))
    ]

module _ (memory : ℕ → List Delta) (sized : (n : ℕ) → length (memory n) ≡ n) where
  -- There are at most as many deltas as the Hamming distance says, and exactly as many if the strings
  -- are equally long.
  pub diag_delta_hamming_chars-hamming_chars :
      (x y : List ℕ)
      → length x + 1 < size_mod
      → (code : DeltaCode) × (diag_delta_hamming_chars memory false x y ≡ some code)
        × (code.num_deltas ≤ hamming_chars false x y)
        × (length x ≡ length y → code.num_deltas ≡ hamming_chars false x y)
  unfolding hamming_chars
  diag_delta_hamming_chars-hamming_chars x y h =
      let (most, alike) = length-deltas_from_distance 0 x y in
      let d = hamming_loop-distance x y 0 in
      (
        record { num_deltas = length (deltas_from 0 x y); deltas = deltas_from 0 x y },
        diag_delta_hamming_chars-deltas_from memory sized x y h,
        omega (arith, most, d),
        λ e. omega (arith, alike e, d),
      )

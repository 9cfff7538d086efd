-- ===== src/Cluster/Examples.antt =====
-- Runs and instances for the deltas of two strings.
use diagonal.Base.{
  ℕ, ◌+◌, ◌-◌, ◌≡◌, ◌≤◌, refl, false, none, some, List, [], ◌∷◌, arith, length, replicate,
  length-replicate,
}
use diagonal.Metric.Hamming.{hamming_chars}
use diagonal.Cluster.{
  Delta, DeltaCode, delta_append, delta_trim, delta_replace, delta_loop, deltas_loop,
  diag_delta_hamming_chars,
}
use diagonal.Cluster.Applied.{apply_all, diag_delta_hamming_chars-apply_all}
use diagonal.Cluster.Counts.{diag_delta_hamming_chars-hamming_chars}
use diagonal.Cluster.Analysis.{Analysis, diag_encode, diag_decode}
use diagonal.Cluster.Analysis.RoundTrip.{all_data, diag_decode-diag_encode}

-- "kitten" and "mittens"
abbrev kitten : List ℕ
kitten = 107 ∷ 105 ∷ 116 ∷ 116 ∷ 101 ∷ 110 ∷ []

abbrev mittens : List ℕ
mittens = 109 ∷ 105 ∷ 116 ∷ 116 ∷ 101 ∷ 110 ∷ 115 ∷ []

abbrev memory : ℕ → List Delta
memory n = replicate n (delta_trim 0)

memory_sized : (n : ℕ) → length (memory n) ≡ n
memory_sized n = length-replicate n (delta_trim 0)

two_deltas :
    diag_delta_hamming_chars memory false kitten mittens
    ≡ some
        (record { num_deltas = 2; deltas = delta_replace 0 mittens ∷ delta_append (115 ∷ []) ∷ [] })
unfolding diag_delta_hamming_chars delta_loop deltas_loop
two_deltas = refl

diag_delta_hamming_chars-apply_all_example :
    (code : DeltaCode) × (diag_delta_hamming_chars memory false kitten mittens ≡ some code)
    × (code.num_deltas ≡ length code.deltas)
    × (apply_all code.deltas kitten ≡ mittens)
diag_delta_hamming_chars-apply_all_example =
    diag_delta_hamming_chars-apply_all memory memory_sized kitten mittens (omega arith)

diag_delta_hamming_chars-hamming_chars_example :
    (code : DeltaCode) × (diag_delta_hamming_chars memory false kitten mittens ≡ some code)
    × (code.num_deltas ≤ hamming_chars false kitten mittens)
    × (length kitten ≡ length mittens → code.num_deltas ≡ hamming_chars false kitten mittens)
diag_delta_hamming_chars-hamming_chars_example =
    diag_delta_hamming_chars-hamming_chars memory memory_sized kitten mittens (omega arith)

-- A code is the size of the cluster, and the datum above it.
abbrev encoder : List ℕ → ℕ → ℕ × ℕ
encoder cluster d = (length cluster, d + length cluster)

abbrev decoder : ℕ × ℕ → ℕ
decoder (n, v) = v - n

decoder-encoder : (cluster : List ℕ) (d : ℕ) → decoder (encoder cluster d) ≡ d
decoder-encoder cluster d = omega arith

abbrev analysis : Analysis ℕ (ℕ × ℕ)
analysis = record {
  num_data = 3;
  «data» = none;
  clusters = (7 ∷ 8 ∷ []) ∷ (9 ∷ []) ∷ [];
  codes = (0, 0) ∷ (0, 0) ∷ (0, 0) ∷ [];
}

diag_decode-diag_encode_example :
    (first : ℕ × ℕ) × (encoded : Analysis ℕ (ℕ × ℕ)) × (diag_encode encoder decoder analysis
      ≡ some (first, encoded))
    × (diag_decode encoder decoder (record encoded { «data» = none })
        ≡ some (7 ∷ 8 ∷ 9 ∷ [], record encoded { «data» = some (7 ∷ 8 ∷ 9 ∷ []) }))
unfolding all_data
diag_decode-diag_encode_example =
    diag_decode-diag_encode encoder decoder decoder-encoder analysis (omega arith) refl refl

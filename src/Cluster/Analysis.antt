-- ===== src/Cluster/Analysis.antt =====
-- The encoding and decoding of clustered data (src/code.c, `struct diag_analysis` of
-- src/diagonal/cluster.h). The encoder and the decoder are the function pointers of the analysis.
pub mod RoundTrip
use diagonal.Base.{
  ℕ, zero, suc, ◌+◌, Option, none, some, List, [], ◌∷◌, ltb, if◌then◌else◌, and_then, length,
  get_elem?, set,
}

-- `num_data` of a cluster is the length of its data, and `num_clusters` that of the clusters.
pub record Analysis (D C : Type 0) : Type 0 where
  pub num_data : ℕ
  pub «data» : Option (List D)
  pub clusters : List (List D)
  pub codes : List C

module _ {D C : Type 0} (encoder : List D → D → C) (decoder : C → D) where
  -- The inner loop, with its assertion. `k` stays below `num_data`, which is a `size_t`.
  unfoldable pub encode_data : ℕ → List D → List D → ℕ × List C → Option (ℕ × List C)
  encode_data num_data cluster [] (k, codes) = some (k, codes)
  encode_data num_data cluster (d ∷ ds) (k, codes) =
      let rest = encode_data num_data cluster ds (k + 1, set codes k (encoder cluster d)) in
      if ltb k num_data then rest else none

  unfoldable pub encode_clusters : ℕ → List (List D) → ℕ × List C → Option (ℕ × List C)
  encode_clusters num_data [] state = some state
  encode_clusters num_data (c ∷ cs) state =
      and_then (encode_data num_data c c state) (encode_clusters num_data cs)

  -- The first code, and the analysis with its codes; nothing if an assertion fails.
  unfoldable pub diag_encode : Analysis D C → Option (C × Analysis D C)
  diag_encode analysis =
      if ltb 0 analysis.num_data
      then and_then (encode_clusters analysis.num_data analysis.clusters (0, analysis.codes))
          (λ state.
            and_then (get_elem? state.1 0) (λ c. some (c, record analysis { codes = state.1 })))
      else none

  -- `data[i] = analysis->decoder(analysis->codes[i])`; `n` is how many are left.
  unfoldable pub decode_loop : List C → ℕ → ℕ → Option (List D)
  decode_loop codes i zero = some []
  decode_loop codes i (suc n) =
      and_then (get_elem? codes i)
        (λ c. and_then (decode_loop codes (suc i) n) (λ ds. some (decoder c ∷ ds)))

  -- Nothing if an assertion fails: there is data already, or `num_data` is 0.
  unfoldable pub decode_new : Option (List D) → Analysis D C → Option (List D × Analysis D C)
  decode_new (some ds) analysis = none
  decode_new none analysis =
      if ltb 0 analysis.num_data
      then and_then (decode_loop analysis.codes 0 analysis.num_data)
          (λ ds. some (ds, record analysis { «data» = some ds }))
      else none

  unfoldable pub diag_decode : Analysis D C → Option (List D × Analysis D C)
  diag_decode analysis = decode_new analysis.«data» analysis

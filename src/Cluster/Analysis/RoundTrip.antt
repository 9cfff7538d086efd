-- ===== src/Cluster/Analysis/RoundTrip.antt =====
-- Decoding gives the encoded data back.
use diagonal.Base.{
  ℕ, zero, suc, ◌+◌, ◌≤◌, ◌<◌, ◌≡◌, refl, sym, ap, ap₂, ◌∙◌, none, some, List, [], ◌∷◌, ◌++◌, map,
  arith, lt→ltb, length, length-append, length-map, get_elem?_of_lt, drop, length-drop,
  append_assoc, append-nil,
}
use diagonal.Base.Slices.{set_next, drop_cons, drop_all}
use diagonal.Cluster.Analysis.{
  Analysis, encode_data, encode_clusters, diag_encode, decode_loop, decode_new, diag_decode,
}

-- The data of all clusters.
unfoldable pub all_data {ℓ} : {D : Type ℓ} → List (List D) → List D
all_data [] = []
all_data (c ∷ cs) = c ++ all_data cs

module _ {D C : Type 0} (encoder : List D → D → C) (decoder : C → D) where
  encode_data-map :
      (num_data k : ℕ) (cluster ds : List D) (p old : List C)
      → k ≡ length p
      → length ds ≤ length old
      → num_data ≡ length p + length old
      → encode_data encoder decoder num_data cluster ds (k, p ++ old)
        ≡ some (k + length ds, (p ++ map (encoder cluster) ds) ++ drop (length ds) old)
  unfolding encode_data
  encode_data-map num_data k cluster [] p old h fits e =
      ap₂ (λ a b. some (a, b ++ old)) (omega arith) (sym (append-nil p))
  encode_data-map num_data k cluster (d ∷ ds) p [] h fits e = absurd (omega (arith, fits))
  encode_data-map num_data k cluster (d ∷ ds) p (o ∷ old) h fits e =
      rw (lt→ltb k num_data (omega (arith, h, e)), set_next p old o (encoder cluster d) k h)
        (encode_data-map num_data (k + 1) cluster ds (p ++ (encoder cluster d ∷ [])) old
            (omega (arith, h, length-append p (encoder cluster d ∷ []))) (omega (arith, fits))
            (omega (arith, e, length-append p (encoder cluster d ∷ [])))
          ∙ ap₂ (λ a b. some (a, b ++ drop (length ds) old)) {x = k + 1 + length ds}
              {y = k + suc (length ds)} (omega arith)
              (append_assoc p (encoder cluster d ∷ []) (map (encoder cluster) ds)))

  -- The codes of all data, cluster by cluster.
  all_codes : List (List D) → List C
  all_codes [] = []
  all_codes (c ∷ cs) = map (encoder c) c ++ all_codes cs

  length-all_codes : (cs : List (List D)) → length (all_codes cs) ≡ length (all_data cs)
  unfolding all_codes all_data
  length-all_codes [] = refl
  length-all_codes (c ∷ cs) = omega (
    arith,
    length-append (map (encoder c) c) (all_codes cs),
    length-append c (all_data cs),
    length-map (encoder c) c,
    length-all_codes cs,
  )

  encode_clusters-all_codes :
      (num_data k : ℕ) (cs : List (List D)) (p old : List C)
      → k ≡ length p
      → length (all_data cs) ≡ length old
      → num_data ≡ length p + length old
      → encode_clusters encoder decoder num_data cs (k, p ++ old)
        ≡ some (num_data, p ++ all_codes cs)
  unfolding encode_clusters all_data all_codes
  encode_clusters-all_codes num_data k [] p [] h fits e =
      ap (λ n. some (n, p ++ [])) (omega (arith, h, e))
  encode_clusters-all_codes num_data k [] p (o ∷ old) h fits e = absurd (omega (arith, fits))
  encode_clusters-all_codes num_data k (c ∷ cs) p old h fits e =
      let more = length-append c (all_data cs) in
      let q = p ++ map (encoder c) c in
      let size : length q ≡ length p + length c =
        length-append p (map (encoder c) c) ∙ ap (λ n. length p + n) (length-map (encoder c) c) in
      let left = length-drop (length c) old in
      rw (encode_data-map num_data k c c p old h (omega (arith, fits, more)) e) (
        encode_clusters-all_codes num_data (k + length c) cs q (drop (length c) old)
          (omega (arith, h, size)) (omega (arith, fits, more, left))
          (omega (arith, e, size, left, fits, more))
        ∙ ap (λ t. some (num_data, t)) (append_assoc p (map (encoder c) c) (all_codes cs)))

  decode_loop-map :
      (codes : List C) (i n : ℕ)
      → i + n ≡ length codes
      → decode_loop encoder decoder codes i n ≡ some (map decoder (drop i codes))
  unfolding decode_loop
  decode_loop-map codes i zero h =
      ap (λ t. some (map decoder t)) (sym (drop_all codes i (omega (arith, h))))
  decode_loop-map codes i (suc n) h =
      let (c, e) = get_elem?_of_lt codes i (omega (arith, h)) in
      let next : drop i codes ≡ c ∷ drop (suc i) codes =
        drop_cons codes i c e ∙ ap (λ k. c ∷ drop k codes) {x = i + 1} {y = suc i} (omega arith) in
      rw (e, decode_loop-map codes (suc i) n (omega (arith, h)), next)

  module _ (inverse : (cluster : List D) (d : D) → decoder (encoder cluster d) ≡ d) where
    decoded : (cluster ds : List D) → map decoder (map (encoder cluster) ds) ≡ ds
    decoded cluster [] = refl
    decoded cluster (d ∷ ds) = ap₂ ◌∷◌ (inverse cluster d) (decoded cluster ds)

    map-all_codes : (cs : List (List D)) → map decoder (all_codes cs) ≡ all_data cs
    unfolding all_codes all_data
    map-all_codes [] = refl
    map-all_codes (c ∷ cs) =
        map_append (map (encoder c) c) (all_codes cs) ∙ ap₂ ◌++◌ (decoded c c) (map-all_codes cs)
      where
        map_append : (xs ys : List C) → map decoder (xs ++ ys) ≡ map decoder xs ++ map decoder ys
        map_append [] ys = refl
        map_append (x ∷ xs) ys = ap (λ t. decoder x ∷ t) (map_append xs ys)

    -- If the decoder inverts the encoder, decoding the codes of an analysis gives the data of its
    -- clusters, one cluster behind the other. `num_data` has to be their number and not 0.
    pub diag_decode-diag_encode :
        (analysis : Analysis D C)
        → 0 < analysis.num_data
        → analysis.num_data ≡ length (all_data analysis.clusters)
        → length analysis.codes ≡ analysis.num_data
        → (first : C) × (encoded : Analysis D C) × (diag_encode encoder decoder analysis
            ≡ some (first, encoded))
          × (diag_decode encoder decoder (record encoded { «data» = none })
              ≡ some (
                all_data analysis.clusters,
                record encoded { «data» = some (all_data analysis.clusters) },
              ))
    unfolding diag_encode diag_decode decode_new
    diag_decode-diag_encode analysis some_data all room =
        let codes = all_codes analysis.clusters in
        let size : length codes ≡ analysis.num_data =
          omega (arith, length-all_codes analysis.clusters, all) in
        let (first, e) = get_elem?_of_lt codes 0 (omega (arith, size, some_data)) in
        let positive = lt→ltb 0 analysis.num_data some_data in
        (
          first,
          record analysis { codes = codes },
          rw (
            positive,
            encode_clusters-all_codes analysis.num_data 0 analysis.clusters [] analysis.codes refl
                (omega (arith, all, room)) (omega (arith, room)),
            e,
          ),
          rw (
            positive,
            decode_loop-map codes 0 analysis.num_data (omega (arith, size)),
            map-all_codes analysis.clusters,
          ),
        )

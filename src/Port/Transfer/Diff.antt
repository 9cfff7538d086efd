-- ===== src/Port/Transfer/Diff.antt =====
-- `diag_port_diff` finds out whether two ports deliver the same bytes.
use diagonal.Base.{
  ℕ, zero, suc, ◌+◌, ◌*◌, ◌<◌, ◌≡◌, ◌≢◌, refl, sym, ap, ap₂, ◌∙◌, true, false, some, List, [], ◌∷◌,
  ◌++◌, arith, ◌⊎◌, inl, inr, ◌==◌, Bool-cases, get_or, lt→ltb, le→ltb, length, take, drop,
  length-append,
}
use diagonal.Base.Slices.{overwrite, take-append_left, drop-append_left}
use diagonal.Base.Word.{sub_size}
use diagonal.Port.{Reader}
use diagonal.Port.Counted.{IsCounted, Block, read_bytes-Block}
use diagonal.Port.Transfer.{
  buffer_length, Compared, equal, differ, same_bytes, unless_differ, diff_rest, diff_first,
  diff_second, diff_loop, diag_port_diff,
}

abbrev Verdict : List ℕ → List ℕ → Compared → Type 0
Verdict xs ys c = ((c ≡ equal) × (xs ≡ ys)) ⊎ ((c ≡ differ) × (xs ≢ ys))

by_length : (xs ys : List ℕ) → length xs ≢ length ys → xs ≢ ys
by_length xs ys other same = other (ap length same)

same_bytes-cases :
    (n : ℕ) (xs ys us vs : List ℕ)
    → length xs ≡ n
    → length ys ≡ n
    → ((same_bytes n (xs ++ us) (ys ++ vs) ≡ some true) × (xs ≡ ys))
      ⊎ ((same_bytes n (xs ++ us) (ys ++ vs) ≡ some false) × (xs ≢ ys))
unfolding same_bytes
same_bytes-cases zero [] [] us vs e e' = inl (refl, refl)
same_bytes-cases zero [] (y ∷ ys) us vs e e' = absurd (omega (arith, e'))
same_bytes-cases zero (x ∷ xs) ys us vs e e' = absurd (omega (arith, e))
same_bytes-cases (suc n) [] ys us vs e e' = absurd (omega (arith, e))
same_bytes-cases (suc n) (x ∷ xs) [] us vs e e' = absurd (omega (arith, e'))
same_bytes-cases (suc n) (x ∷ xs) (y ∷ ys) us vs e e' = elim (Bool-cases (x == y)) [
  | inl same ↦
      let alike : x ≡ y = ground (arith, same) in
      elim (same_bytes-cases n xs ys us vs (omega (arith, e)) (omega (arith, e'))) [
        | inl (r, all) ↦ inl (rw (same, r), ap₂ ◌∷◌ alike all)
        | inr (r, some_differ) ↦ inr (rw (same, r), λ h. some_differ (ap (drop 1) h))
      ]
  | inr other ↦ inr (rw other, λ h. first other (ap (λ k. get_or k 0 0) h))
]
  where
    first : {a b : ℕ} → (a == b) ≡ false → a ≢ b
    first r same = ground arith

lengths : (m n : ℕ) → ((m ≡ n) × ((m == n) ≡ true)) ⊎ ((m ≢ n) × ((m == n) ≡ false))
lengths m n = elim (Bool-cases (m == n)) [
  | inl same ↦ inl (ground arith, same)
  | inr other ↦ inr (λ e. ground arith, other)
]

empty_both : (xs ys : List ℕ) → length xs ≡ 0 → length ys ≡ 0 → xs ≡ ys
empty_both [] [] e e' = refl
empty_both [] (y ∷ ys) e e' = absurd (omega (arith, e'))
empty_both (x ∷ xs) ys e e' = absurd (omega (arith, e))

module _ {S T : Type 0} {iport1 : Reader S} {i_pos1 : S → ℕ} {Holds1 : S → List ℕ → Type 0}
    (reader1 : IsCounted iport1 i_pos1 Holds1) {iport2 : Reader T} {i_pos2 : T → ℕ}
    {Holds2 : T → List ℕ → Type 0} (reader2 : IsCounted iport2 i_pos2 Holds2) where
  diff_rest-Verdict :
      (pos1 pos2 : ℕ) (buf1 buf2 xs ys : List ℕ) (s : S) (t : T)
      → Holds1 s []
      → i_pos1 s ≡ pos1 + length xs
      → Holds2 t []
      → i_pos2 t ≡ pos2 + length ys
      → Verdict xs ys
          (diff_rest iport1 i_pos1 iport2 i_pos2 pos1 pos2 (xs ++ buf1) (ys ++ buf2) s t).0
  unfolding diff_rest unless_differ
  diff_rest-Verdict pos1 pos2 buf1 buf2 xs ys s t h at h' at' =
      let len1 : sub_size (i_pos1 s) pos1 ≡ length xs = omega (arith, at, reader1.fits s [] h) in
      let len2 : sub_size (i_pos2 t) pos2 ≡ length ys = omega (arith, at', reader2.fits t [] h') in
      elim (lengths (length xs) (length ys)) [
        | inr (apart, r) ↦ inr (rw (len1, len2, r), by_length xs ys apart)
        | inl (e, r) ↦ elim (none_or_some (length xs)) [
          | inl nothing ↦ inl (
            rw (len1, len2, r, le→ltb 0 (length xs) (omega (arith, nothing))),
            empty_both xs ys nothing (omega (arith, e, nothing)),
          )
          | inr much ↦ elim (same_bytes-cases (length xs) xs ys buf1 buf2 refl (sym e)) [
            | inl (b, same) ↦ inl (rw (len1, len2, r, lt→ltb 0 (length xs) much, b), same)
            | inr (b, apart) ↦ inr (rw (len1, len2, r, lt→ltb 0 (length xs) much, b), apart)
          ]
        ]
      ]
    where
      none_or_some : (n : ℕ) → (n ≡ 0) ⊎ (0 < n)
      none_or_some n = ground arith

  diff_loop-Verdict :
      (fuel : ℕ) (buf1 buf2 xs ys : List ℕ) (s : S) (t : T)
      → length xs < fuel * buffer_length
      → Holds1 s xs
      → Holds2 t ys
      → Verdict xs ys
          (diff_loop iport1 i_pos1 iport2 i_pos2 fuel (i_pos1 s) (i_pos2 t) buf1 buf2 s t).0
  unfolding diff_loop diff_first diff_second unless_differ
  diff_loop-Verdict zero buf1 buf2 xs ys s t enough h h' = absurd (omega arith)
  diff_loop-Verdict (suc fuel) buf1 buf2 xs ys s t enough h h' =
      elim (read_bytes-Block reader1 buffer_length s xs h) [
        | Block.partial s' few r h1 at ↦ elim (read_bytes-Block reader2 buffer_length t ys h') [
          | Block.partial t' few' r' h2 at' ↦
              rw (r, r')
                (diff_rest-Verdict (i_pos1 s) (i_pos2 t) (drop (length xs) buf1)
                  (drop (length ys) buf2) xs ys s' t' h1 at h2 at')
          | Block.full now later t' sized whole r' h2 at' ↦
              inr (rw (r, r'), by_length xs ys (longer now later ys sized whole few))
        ]
        | Block.full now later s' sized whole r h1 at ↦
            elim (read_bytes-Block reader2 buffer_length t ys h') [
              | Block.partial t' few' r' h2 at' ↦
                  inr (rw (r, r'), λ e. longer now later xs sized whole few' (ap length (sym e)))
              | Block.full now' later' t' sized' whole' r' h2 at' ↦
                  elim (same_bytes-cases buffer_length now now' (drop (length now) buf1)
                    (drop (length now') buf2) sized sized') [
                      | inr (b, apart) ↦ inr (
                        rw (r, r', b),
                        λ e. apart (
                            heads now later now' later' (sized ∙ sym sized')
                              (whole ∙ e ∙ sym whole')),
                      )
                      | inl (b, same) ↦
                          let left : length xs ≡ buffer_length + length later =
                            ap length (sym whole) ∙ omega (arith, length-append now later, sized) in
                          elim (diff_loop-Verdict fuel (overwrite buf1 0 now)
                            (overwrite buf2 0 now') later later' s' t' (omega (arith, left, enough))
                            h1 h2) [
                              | inl (c, rest) ↦
                                  inl (rw (r, r', b) c, sym whole ∙ ap₂ ◌++◌ same rest ∙ whole')
                              | inr (c, rest) ↦ inr (
                                rw (r, r', b) c,
                                λ e. rest (
                                    tails now later now' later' (sized ∙ sym sized')
                                      (whole ∙ e ∙ sym whole')),
                              )
                            ]
                    ]
            ]
      ]
    where
      longer :
          {n : ℕ} (now later bs : List ℕ)
          → length now ≡ buffer_length
          → now ++ later ≡ bs
          → n < buffer_length
          → n ≢ length bs
      longer now later bs sized whole few e =
          omega (arith, ap length whole, length-append now later, sized, few, e)

      heads : (xs us ys vs : List ℕ) → length xs ≡ length ys → xs ++ us ≡ ys ++ vs → xs ≡ ys
      heads xs us ys vs e h =
          sym (take-append_left xs us (length xs) refl)
          ∙ ap (take (length xs)) h
          ∙ take-append_left ys vs (length xs) e

      tails : (xs us ys vs : List ℕ) → length xs ≡ length ys → xs ++ us ≡ ys ++ vs → us ≡ vs
      tails xs us ys vs e h =
          sym (drop-append_left xs us (length xs) refl)
          ∙ ap (drop (length xs)) h
          ∙ drop-append_left ys vs (length xs) e

  -- Whether two ports deliver the same bytes from their positions on is what the comparison finds
  -- out. The fuel is one round for each full buffer of the first port and one for the rest.
  pub diag_port_diff-equal :
      (fuel : ℕ) (buf1 buf2 xs ys : List ℕ) (s : S) (t : T)
      → length xs < fuel * buffer_length
      → Holds1 s xs
      → Holds2 t ys
      → (((diag_port_diff iport1 i_pos1 iport2 i_pos2 fuel buf1 buf2 s t).0 ≡ equal) × (xs ≡ ys))
        ⊎ (((diag_port_diff iport1 i_pos1 iport2 i_pos2 fuel buf1 buf2 s t).0 ≡ differ) × (xs ≢ ys))
  unfolding diag_port_diff
  diag_port_diff-equal fuel buf1 buf2 xs ys s t enough h h' =
      diff_loop-Verdict fuel buf1 buf2 xs ys s t enough h h'

-- ===== src/Cluster/Applied.antt =====
-- The deltas turn the first string into the second.
use diagonal.Base.{
  ℕ, ◌+◌, ◌≤◌, ◌<◌, ◌≡◌, refl, sym, ap, ◌∙◌, false, some, List, [], ◌∷◌, ◌++◌, arith, inl, inr,
  Bool-cases, ◌==◌, if◌then◌else◌, length, length-append, set, take, append_assoc, append-nil,
}
use diagonal.Base.Slices.{set_next, take-append_left}
use diagonal.Base.Word.{size_mod, add_size}
use diagonal.Cluster.{
  DeltaType, Delta, DeltaCode, delta_append, delta_trim, delta_replace, delta_loop, deltas_loop,
  diag_delta_hamming_chars,
}

-- What a delta stands for: another character at an index, more characters, or an end at an index.
unfoldable pub apply_as : DeltaType → ℕ → List ℕ → List ℕ → List ℕ
apply_as DeltaType.replace i [] x = x
apply_as DeltaType.replace i (c ∷ cs) x = set x i c
apply_as DeltaType.insert i cs x = x
apply_as DeltaType.delete i cs x = x
apply_as DeltaType.append i cs x = x ++ cs
apply_as DeltaType.trim i cs x = take i x

unfoldable pub apply_all : List Delta → List ℕ → List ℕ
apply_all [] x = x
apply_all (d ∷ ds) x = apply_all ds (apply_as d.type d.index d.value x)

-- The deltas of two strings from an index on, in the order in which they are pushed.
unfoldable pub deltas_from : ℕ → List ℕ → List ℕ → List Delta
deltas_from i [] [] = []
deltas_from i [] (y ∷ ys) = delta_append (y ∷ ys) ∷ []
deltas_from i (x ∷ xs) [] = delta_trim i ∷ []
deltas_from i (x ∷ xs) (y ∷ ys) =
    let rest = deltas_from (i + 1) xs ys in if x == y then rest else delta_replace i (y ∷ ys) ∷ rest

pub delta_loop-deltas_from :
    (i : ℕ) (x y : List ℕ) (deque : List Delta)
    → i + length x < size_mod
    → delta_loop i x y deque ≡ deque ++ deltas_from i x y
unfolding delta_loop deltas_from
delta_loop-deltas_from i [] [] deque h = sym (append-nil deque)
delta_loop-deltas_from i [] (y ∷ ys) deque h = refl
delta_loop-deltas_from i (x ∷ xs) [] deque h = refl
delta_loop-deltas_from i (x ∷ xs) (y ∷ ys) deque h =
    let next : add_size i 1 ≡ i + 1 = omega (arith, h) in
    elim (Bool-cases (x == y)) [
      | inl same ↦ rw (next, same) (delta_loop-deltas_from (i + 1) xs ys deque (omega (arith, h)))
      | inr other ↦
          rw (next, other)
            (delta_loop-deltas_from (i + 1) xs ys (deque ++ (delta_replace i (y ∷ ys) ∷ []))
                (omega (arith, h))
              ∙ append_assoc deque (delta_replace i (y ∷ ys) ∷ []) (deltas_from (i + 1) xs ys))
    ]

-- With `p` already done.
apply_all-deltas_from :
    (p x y : List ℕ) (i : ℕ) → i ≡ length p → apply_all (deltas_from i x y) (p ++ x) ≡ p ++ y
unfolding apply_all deltas_from apply_as delta_append delta_trim delta_replace
apply_all-deltas_from p [] [] i h = refl
apply_all-deltas_from p [] (y ∷ ys) i h = ap (λ k. k ++ (y ∷ ys)) (append-nil p)
apply_all-deltas_from p (x ∷ xs) [] i h = take-append_left p (x ∷ xs) i h ∙ sym (append-nil p)
apply_all-deltas_from p (x ∷ xs) (y ∷ ys) i h =
    let rest =
      apply_all-deltas_from (p ++ (y ∷ [])) xs ys (i + 1)
        (omega (arith, h, length-append p (y ∷ []))) in
    let moved : apply_all (deltas_from (i + 1) xs ys) (p ++ (y ∷ xs)) ≡ p ++ (y ∷ ys) =
      ap (apply_all (deltas_from (i + 1) xs ys)) (sym (append_assoc p (y ∷ []) xs))
      ∙ rest
      ∙ append_assoc p (y ∷ []) ys in
    elim (Bool-cases (x == y)) [
      | inl same ↦
          let alike : x ≡ y = ground (arith, same) in
          rw same (ap (λ c. apply_all (deltas_from (i + 1) xs ys) (p ++ (c ∷ xs))) alike ∙ moved)
      | inr other ↦
          let put : set (p ++ (x ∷ xs)) i y ≡ p ++ (y ∷ xs) =
            set_next p xs x y i h ∙ append_assoc p (y ∷ []) xs in
          rw other (ap (apply_all (deltas_from (i + 1) xs ys)) put ∙ moved)
    ]

-- Stored one behind the other, the elements of the deque fill an array of their number.
deltas_loop-deque :
    (p ds old : List Delta) (i : ℕ)
    → length ds ≡ length old
    → i ≡ length p
    → i + length ds < size_mod
    → deltas_loop (p ++ old) i ds ≡ p ++ ds
unfolding deltas_loop
deltas_loop-deque p [] [] i e h b = refl
deltas_loop-deque p [] (o ∷ old) i e h b = absurd (omega (arith, e))
deltas_loop-deque p (d ∷ ds) [] i e h b = absurd (omega (arith, e))
deltas_loop-deque p (d ∷ ds) (o ∷ old) i e h b =
    let next : add_size i 1 ≡ i + 1 = omega (arith, b) in
    let put : set (p ++ (o ∷ old)) i d ≡ (p ++ (d ∷ [])) ++ old = set_next p old o d i h in
    rw (put, next)
      (deltas_loop-deque (p ++ (d ∷ [])) ds old (i + 1) (omega (arith, e))
          (omega (arith, h, length-append p (d ∷ []))) (omega (arith, b))
        ∙ append_assoc p (d ∷ []) ds)

length-deltas_from : (i : ℕ) (x y : List ℕ) → length (deltas_from i x y) ≤ length x + 1
unfolding deltas_from
length-deltas_from i [] [] = omega arith
length-deltas_from i [] (y ∷ ys) = omega arith
length-deltas_from i (x ∷ xs) [] = omega arith
length-deltas_from i (x ∷ xs) (y ∷ ys) =
    let rest = length-deltas_from (i + 1) xs ys in
    elim (Bool-cases (x == y)) [
      | inl same ↦ rw same (omega (arith, rest))
      | inr other ↦ rw other (omega (arith, rest))
    ]

module _ (memory : ℕ → List Delta) (sized : (n : ℕ) → length (memory n) ≡ n) where
  pub diag_delta_hamming_chars-deltas_from :
      (x y : List ℕ)
      → length x + 1 < size_mod
      → diag_delta_hamming_chars memory false x y
        ≡ some (record { num_deltas = length (deltas_from 0 x y); deltas = deltas_from 0 x y })
  unfolding diag_delta_hamming_chars
  diag_delta_hamming_chars-deltas_from x y h =
      let ds = deltas_from 0 x y in
      let n = length ds in
      rw (
        delta_loop-deltas_from 0 x y [] (omega (arith, h)),
        deltas_loop-deque [] ds (memory n) 0 (sym (sized n)) refl
            (omega (arith, h, length-deltas_from 0 x y)),
      )

  -- The deltas of two strings, applied in their order, turn the first string into the second.
  pub diag_delta_hamming_chars-apply_all :
      (x y : List ℕ)
      → length x + 1 < size_mod
      → (code : DeltaCode) × (diag_delta_hamming_chars memory false x y ≡ some code)
        × (code.num_deltas ≡ length code.deltas)
        × (apply_all code.deltas x ≡ y)
  diag_delta_hamming_chars-apply_all x y h = (
    record { num_deltas = length (deltas_from 0 x y); deltas = deltas_from 0 x y },
    diag_delta_hamming_chars-deltas_from x y h,
    refl,
    apply_all-deltas_from [] x y 0 refl,
  )

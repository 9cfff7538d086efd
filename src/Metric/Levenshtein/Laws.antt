-- ===== src/Metric/Levenshtein/Laws.antt =====
-- Both functions compute the least number of edits.
use diagonal.Base.{
  ℕ, ◌+◌, ◌-◌, ◌≤◌, ◌<◌, ◌≡◌, refl, sym, ap, ap₂, ◌∙◌, List, [], ◌∷◌, arith, ltb, leb, ◌==◌,
  if◌then◌else◌, length, inl, inr, ◌⊎◌, Bool-cases, Bool, true, none, some,
}
use diagonal.Base.Int.{ℤ}
use diagonal.Base.Word.{u32_mod}
use mathlib.Core.List.{reverse, reverse_aux}
use diagonal.Metric.Levenshtein.{
  trim_initial, trim_final, levenshtein_ordered, levenshtein_chars, elevenshtein_chars,
}
use diagonal.Metric.Levenshtein.Distance.{
  distance, distance-nil, distance_comm, distance-same, distance-length,
}
use diagonal.Metric.Levenshtein.Table.{table-distance}
use diagonal.Metric.Levenshtein.Scripts.{
  Edit, old_of, new_of, edits, distance-edits, attained, distance-reverse,
}

trim_initial-distance :
    (xs ys : List ℕ) → distance (trim_initial xs ys).0 (trim_initial xs ys).1 ≡ distance xs ys
unfolding trim_initial
trim_initial-distance [] ys = refl
trim_initial-distance (x ∷ xs) [] = refl
trim_initial-distance (x ∷ xs) (y ∷ ys) = elim (Bool-cases (x == y)) [
  | inr other ↦
      let kept : trim_initial (x ∷ xs) (y ∷ ys) ≡ (x ∷ xs, y ∷ ys) = rw other in
      ap (λ t. distance t.0 t.1) kept
  | inl same ↦
      let e : x ≡ y = ground (arith, same) in
      let trimmed : trim_initial (x ∷ xs) (y ∷ ys) ≡ trim_initial xs ys = rw same in
      ap (λ t. distance t.0 t.1) trimmed
      ∙ trim_initial-distance xs ys
      ∙ sym (distance-same x xs ys)
      ∙ ap (λ z. distance (x ∷ xs) (z ∷ ys)) e
]

trim_final-distance :
    (xs ys : List ℕ) → distance (trim_final xs ys).0 (trim_final xs ys).1 ≡ distance xs ys
unfolding trim_final
trim_final-distance xs ys =
    distance-reverse (trim_initial (reverse xs) (reverse ys)).0
      (trim_initial (reverse xs) (reverse ys)).1
    ∙ trim_initial-distance (reverse xs) (reverse ys)
    ∙ distance-reverse xs ys

length-trim_initial :
    (xs ys : List ℕ)
    → (length (trim_initial xs ys).0 ≤ length xs) × (length (trim_initial xs ys).1 ≤ length ys)
unfolding trim_initial
length-trim_initial [] ys = (omega arith, omega arith)
length-trim_initial (x ∷ xs) [] = (omega arith, omega arith)
length-trim_initial (x ∷ xs) (y ∷ ys) =
    let (a, b) = length-trim_initial xs ys in
    elim (Bool-cases (x == y)) [
      | inl same ↦ rw same (omega (arith, a), omega (arith, b))
      | inr other ↦ rw other (omega arith, omega arith)
    ]

length-reverse_aux : (xs ys : List ℕ) → length (reverse_aux xs ys) ≡ length xs + length ys
length-reverse_aux [] ys = omega arith
length-reverse_aux (x ∷ xs) ys = omega (arith, length-reverse_aux xs (x ∷ ys))

length-reverse : (xs : List ℕ) → length (reverse xs) ≡ length xs
length-reverse xs = omega (arith, length-reverse_aux xs [])

length-trim_final :
    (xs ys : List ℕ)
    → (length (trim_final xs ys).0 ≤ length xs) × (length (trim_final xs ys).1 ≤ length ys)
unfolding trim_final
length-trim_final xs ys =
    let t = trim_initial (reverse xs) (reverse ys) in
    let (a, b) = length-trim_initial (reverse xs) (reverse ys) in
    (
      omega (arith, a, length-reverse xs, length-reverse t.0),
      omega (arith, b, length-reverse ys, length-reverse t.1),
    )

-- The loop counters have room for the string.
abbrev Fits : List ℕ → Type 0
Fits xs = length xs + 1 < u32_mod

distance_of_empty : (xs ys : List ℕ) → length ys ≡ 0 → distance xs ys ≡ length xs
distance_of_empty xs [] h = distance-nil xs
distance_of_empty xs (y ∷ ys) h = absurd (omega (arith, h))

levenshtein_ordered-distance :
    (xs ys : List ℕ) → Fits xs → Fits ys → levenshtein_ordered xs ys ≡ some (distance xs ys)
unfolding levenshtein_ordered
levenshtein_ordered-distance xs ys h k =
    let t = trim_final xs ys in
    let (a, b) = length-trim_final xs ys in
    elim (Bool-cases (length t.1 == 0)) [
      | inl empty ↦ rw empty (
          ap some
            (sym (distance_of_empty t.0 t.1 (ground (arith, empty))) ∙ trim_final-distance xs ys))
      | inr more ↦ rw more (
          table-distance t.0 t.1 (omega (arith, a, h)) (omega (arith, b, k))
          ∙ ap some (distance-reverse t.0 t.1 ∙ trim_final-distance xs ys))
    ]

levenshtein_chars-distance :
    (xs ys : List ℕ) → Fits xs → Fits ys → levenshtein_chars xs ys ≡ some (distance xs ys)
unfolding levenshtein_chars
levenshtein_chars-distance xs ys h k =
    let x = (trim_initial xs ys).0 in
    let y = (trim_initial xs ys).1 in
    let whole = trim_initial-distance xs ys in
    let (a, b) = length-trim_initial xs ys in
    let x_fits : Fits x = omega (arith, a, h) in
    let y_fits : Fits y = omega (arith, b, k) in
    elim (Bool-cases (length x == 0)) [
      | inl no_x ↦
          rw no_x (
            ap some
              (sym (distance_of_empty y x (ground (arith, no_x))) ∙ distance_comm y x ∙ whole))
      | inr some_x ↦ elim (Bool-cases (length y == 0)) [
        | inl no_y ↦
            rw (some_x, no_y) (ap some (sym (distance_of_empty x y (ground (arith, no_y))) ∙ whole))
        | inr some_y ↦ elim (Bool-cases (ltb (length x) (length y))) [
          | inl shorter ↦
              rw (some_x, some_y, shorter)
                (levenshtein_ordered-distance y x y_fits x_fits
                  ∙ ap some (distance_comm y x ∙ whole))
          | inr longer ↦
              rw (some_x, some_y, longer)
                (levenshtein_ordered-distance x y x_fits y_fits ∙ ap some whole)
        ]
      ]
    ]

distance_self : (xs : List ℕ) → distance xs xs ≡ 0
distance_self [] = refl
distance_self (x ∷ xs) = distance-same x xs xs ∙ distance_self xs

-- For strings of less than 2 ^ 32 - 1 characters the loops end, and the Levenshtein distance is the
-- least number of characters to insert, delete or replace on the way from the first string to the
-- second: some script has as many edits, and none has fewer.
pub levenshtein_chars-least :
    (xs ys : List ℕ)
    → length xs + 1 < u32_mod
    → length ys + 1 < u32_mod
    → (d : ℕ) × (levenshtein_chars xs ys ≡ some d)
      × ((s : List Edit) × (old_of s ≡ xs) × (new_of s ≡ ys) × (edits s ≡ d))
      × ((s : List Edit) → old_of s ≡ xs → new_of s ≡ ys → d ≤ edits s)
levenshtein_chars-least xs ys h k =
    let a = attained xs ys in
    (
      distance xs ys,
      levenshtein_chars-distance xs ys h k,
      (a.script, a.old, a.new, a.counted),
      λ s old new. omega (arith, distance-edits s, ap₂ distance old new),
    )

-- For strings of less than 2 ^ 32 - 1 characters and a bound that is not negative, the bounded
-- Levenshtein distance is the Levenshtein distance if that is below the bound, and -1 if not, if
-- equal pointers point to equal strings.
pub elevenshtein_chars-levenshtein_chars :
    (same : Bool) (xs ys : List ℕ) (e : ℕ)
    → length xs + 1 < u32_mod
    → length ys + 1 < u32_mod
    → (same ≡ true → xs ≡ ys)
    → (d : ℕ) × (levenshtein_chars xs ys ≡ some d)
      × (((d < e) × (elevenshtein_chars same xs ys (ℤ.pos e) ≡ some (some d)))
          ⊎ ((e ≤ d) × (elevenshtein_chars same xs ys (ℤ.pos e) ≡ some none)))
unfolding elevenshtein_chars
elevenshtein_chars-levenshtein_chars same xs ys e h k alias =
    let d = distance xs ys in
    let computed = levenshtein_chars-distance xs ys h k in
    let dxy =
      (if ltb (length xs) (length ys) then length ys - length xs else length xs - length ys) in
    let far : dxy ≤ d = ground (arith, (distance-length xs ys).0, (distance-length xs ys).1) in
    (
      d,
      computed,
      elim (Bool-cases (e == 0)) [
        | inl zero_bound ↦ inr (ground (arith, zero_bound), rw zero_bound)
        | inr bound ↦ elim (Bool-cases same) [
          | inl alike ↦
              let none_apart : d ≡ 0 = ap (distance xs) (sym (alias alike)) ∙ distance_self xs in
              inl (
                ground (arith, bound, none_apart),
                rw (bound, alike) (ap (λ n. some (some n)) (sym none_apart)),
              )
          | inr other ↦ elim (Bool-cases (leb e dxy)) [
            | inl past ↦ inr (ground (arith, past, far), rw (bound, other, past))
            | inr near ↦ elim (Bool-cases (ltb d e)) [
              | inl below ↦ inl (ground (arith, below), rw (bound, other, near, computed, below))
              | inr above ↦ inr (ground (arith, above), rw (bound, other, near, computed, above))
            ]
          ]
        ]
      ],
    )

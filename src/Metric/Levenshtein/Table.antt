-- ===== src/Metric/Levenshtein/Table.antt =====
-- The rows of the table hold the distances of the initial parts, which are read backwards here.
use diagonal.Base.{
  ℕ, ◌+◌, ◌<◌, ◌≡◌, refl, sym, ap, ◌∙◌, false, ◌==◌, some, and_then, List, [], ◌∷◌, arith, length,
  get_or, min,
}
use diagonal.Base.Word.{u32_mod, add32}
use mathlib.Core.List.{reverse, reverse_aux}
use diagonal.Metric.Levenshtein.{least, cost, row_loop, next_row, rows_loop, first_row, table}
use diagonal.Metric.Levenshtein.Distance.{distance, distance-nil}

-- The row for `rx`: the distances from `ry` and its extensions by the characters of `ys`.
abbrev row_of : List ℕ → List ℕ → List ℕ → List ℕ
row_of rx ry [] = distance rx ry ∷ []
row_of rx ry (y ∷ ys) = distance rx ry ∷ row_of rx (y ∷ ry) ys

least-min : (u v w : ℕ) → least u v w ≡ min (min u v) w
least-min u v w = ground arith

counts_on : (j : ℕ) → j + 1 < u32_mod → (add32 j 1 ≡ j + 1) × ((add32 j 1 == 0) ≡ false)
counts_on j h = let next : add32 j 1 ≡ j + 1 = omega (arith, h) in (next, ground (arith, next))

row_loop-row_of :
    (j x : ℕ) (rx ry : List ℕ) (ys : List ℕ)
    → j + length ys < u32_mod
    → and_then
        (row_loop j x ys (row_of rx ry ys) (distance (x ∷ rx) ry))
        (λ ds. some (distance (x ∷ rx) ry ∷ ds))
      ≡ some (row_of (x ∷ rx) ry ys)
unfolding row_loop
row_loop-row_of j x rx ry [] h = refl
row_loop-row_of j x rx ry (y ∷ []) h =
    let (next, more) = counts_on j (omega (arith, h)) in
    rw more (
      ap (λ d. some (distance (x ∷ rx) ry ∷ d ∷ []))
        (least-min (distance (x ∷ rx) ry + 1) (distance rx (y ∷ ry) + 1)
          (distance rx ry + cost x y)))
row_loop-row_of j x rx ry (y ∷ z ∷ ys) h =
    let (next, more) = counts_on j (omega (arith, h)) in
    let rest = row_loop-row_of (add32 j 1) x rx (y ∷ ry) (z ∷ ys) (omega (arith, next, h)) in
    rw more (
      ap
        (λ d.
          and_then
            (and_then (row_loop (add32 j 1) x (z ∷ ys) (row_of rx (y ∷ ry) (z ∷ ys)) d)
              (λ ds. some (d ∷ ds)))
            (λ ds. some (distance (x ∷ rx) ry ∷ ds)))
        (least-min (distance (x ∷ rx) ry + 1) (distance rx (y ∷ ry) + 1)
          (distance rx ry + cost x y))
      ∙ ap (λ o. and_then o (λ ds. some (distance (x ∷ rx) ry ∷ ds))) rest)

next_row-row_of :
    (x : ℕ) (rx ys : List ℕ)
    → length ys < u32_mod
    → next_row x ys (row_of rx [] ys) ≡ some (row_of (x ∷ rx) [] ys)
unfolding next_row
next_row-row_of x rx [] h =
    ap (λ d. and_then (row_loop 0 x [] (distance rx [] ∷ []) d) (λ ds. some (d ∷ ds)))
      {y = length (x ∷ rx)} (omega (arith, distance-nil rx))
    ∙ row_loop-row_of 0 x rx [] [] h
next_row-row_of x rx (y ∷ ys) h =
    ap (λ d. and_then (row_loop 0 x (y ∷ ys) (row_of rx [] (y ∷ ys)) d) (λ ds. some (d ∷ ds)))
      {y = length (x ∷ rx)} (omega (arith, distance-nil rx))
    ∙ row_loop-row_of 0 x rx [] (y ∷ ys) (omega (arith, h))

rows_loop-row_of :
    (i : ℕ) (xs rx ys : List ℕ)
    → i + length xs < u32_mod
    → length ys < u32_mod
    → rows_loop i xs ys (row_of rx [] ys) ≡ some (row_of (reverse_aux xs rx) [] ys)
unfolding rows_loop
rows_loop-row_of i [] rx ys h k = refl
rows_loop-row_of i (x ∷ xs) rx ys h k =
    let (next, more) = counts_on i (omega (arith, h)) in
    rw (next_row-row_of x rx ys k, more)
      (rows_loop-row_of (add32 i 1) xs (x ∷ rx) ys (omega (arith, next, h)) k)

first_row-row_of :
    (j : ℕ) (ry ys : List ℕ)
    → length ry ≡ j
    → j + length ys + 1 < u32_mod
    → first_row j ys ≡ some (row_of [] ry ys)
unfolding first_row
first_row-row_of j ry [] h k =
    let (next, more) = counts_on j (omega (arith, k)) in rw more (ap (λ n. some (n ∷ [])) (sym h))
first_row-row_of j ry (y ∷ ys) h k =
    let (next, more) = counts_on j (omega (arith, k)) in
    rw
      (
        more,
        first_row-row_of (add32 j 1) (y ∷ ry) ys (omega (arith, next, h)) (omega (arith, next, k)),
      )
      (ap (λ n. some (n ∷ row_of [] (y ∷ ry) ys)) (sym h))

last-row_of :
    (rx ry ys : List ℕ) → get_or (row_of rx ry ys) (length ys) 0 ≡ distance rx (reverse_aux ys ry)
last-row_of rx ry [] = refl
last-row_of rx ry (y ∷ ys) = last-row_of rx (y ∷ ry) ys

pub table-distance :
    (xs ys : List ℕ)
    → length xs < u32_mod
    → length ys + 1 < u32_mod
    → table xs ys ≡ some (distance (reverse xs) (reverse ys))
unfolding table
table-distance xs ys h k =
    let cur = first_row-row_of 0 [] ys refl (omega (arith, k)) in
    let last = rows_loop-row_of 0 xs [] ys (omega (arith, h)) (omega (arith, k)) in
    rw (cur, last) (ap some (last-row_of (reverse xs) [] ys))

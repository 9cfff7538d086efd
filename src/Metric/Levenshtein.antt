-- ===== src/Metric/Levenshtein.antt =====
-- Levenshtein distances of two strings: `diag_levenshtein_chars` and `diag_elevenshtein_chars` of
-- src/levenshtein.c. A string is the list of its characters before the '\0', and `same` the test
-- `x == y` of pointers. A distance is at most the greater of the two lengths, so that no sum wraps.
pub mod Table
pub mod Distance
pub mod Scripts
pub mod Laws
use diagonal.Base.{
  ℕ, zero, suc, ◌+◌, ◌-◌, Bool, Option, none, some, List, [], ◌∷◌, ltb, leb, ◌==◌, if◌then◌else◌,
  length, get_or, and_then,
}
use diagonal.Base.Int.{ℤ, is_zero, to_size, below_int}
use diagonal.Base.Word.{add32}
use mathlib.Core.List.{reverse}

-- `while (*x && *y && (*x == *y)) x++, y++;`
unfoldable pub trim_initial : List ℕ → List ℕ → List ℕ × List ℕ
trim_initial [] ys = ([], ys)
trim_initial (x ∷ xs) [] = (x ∷ xs, [])
trim_initial (x ∷ xs) (y ∷ ys) =
    let rest = trim_initial xs ys in if x == y then rest else (x ∷ xs, y ∷ ys)

-- `while (ly > 0 && x[lx-1] == y[ly-1]) lx--, ly--;` reads the same from the ends.
unfoldable pub trim_final : List ℕ → List ℕ → List ℕ × List ℕ
trim_final xs ys =
    let trimmed = trim_initial (reverse xs) (reverse ys) in (reverse trimmed.0, reverse trimmed.1)

-- `d = (u < v) ? u : v; d = (w < d) ? w : d;`
abbrev pub least : ℕ → ℕ → ℕ → ℕ
least u v w = let d = (if ltb u v then u else v) in if ltb w d then w else d

-- `(x[i] == y[j]) ? 0 : 1`
abbrev pub cost : ℕ → ℕ → ℕ
cost x y = if x == y then 0 else 1

-- The loop over `j`: `cur` is the old row from `j` on, `left` is `new[j]`. The counter is an
-- `unsigned int`. When it comes to 2 ^ 32 it starts again from 0, which is below `ly`, so that the
-- loop does not end: that is `none`, as is an access outside a row.
unfoldable pub row_loop : ℕ → ℕ → List ℕ → List ℕ → ℕ → Option (List ℕ)
row_loop j x [] cur left = some []
row_loop j x (y ∷ ys) [] left = none
row_loop j x (y ∷ ys) (c ∷ []) left = none
row_loop j x (y ∷ ys) (c ∷ c' ∷ cur) left =
    let d = least (left + 1) (c' + 1) (c + cost x y) in
    let rest = row_loop (add32 j 1) x ys (c' ∷ cur) d in
    if add32 j 1 == 0 then none else and_then rest (λ ds. some (d ∷ ds))

unfoldable pub next_row : ℕ → List ℕ → List ℕ → Option (List ℕ)
next_row x ys [] = none
next_row x ys (c ∷ cur) = and_then (row_loop 0 x ys (c ∷ cur) (c + 1)) (λ ds. some ((c + 1) ∷ ds))

-- The loop over `i`, a counter of the same kind.
unfoldable pub rows_loop : ℕ → List ℕ → List ℕ → List ℕ → Option (List ℕ)
rows_loop i [] ys cur = some cur
rows_loop i (x ∷ xs) ys cur =
    and_then (next_row x ys cur)
      (λ new. if add32 i 1 == 0 then none else rows_loop (add32 i 1) xs ys new)

-- `for (j = 1; j <= ly; j++) cur[j] = j;` from `j` on, with a counter of the same kind.
unfoldable pub first_row : ℕ → List ℕ → Option (List ℕ)
first_row j [] = if add32 j 1 == 0 then none else some (j ∷ [])
first_row j (y ∷ ys) =
    let rest = first_row (add32 j 1) ys in
    if add32 j 1 == 0 then none else and_then rest (λ cells. some (j ∷ cells))

-- The last cell is the last value of `d`.
unfoldable pub table : List ℕ → List ℕ → Option ℕ
table xs ys =
    and_then (first_row 0 ys)
      (λ cur. and_then (rows_loop 0 xs ys cur) (λ last. some (get_or last (length ys) 0)))

-- With `xs` the longer string.
unfoldable pub levenshtein_ordered : List ℕ → List ℕ → Option ℕ
levenshtein_ordered xs ys =
    let trimmed = trim_final xs ys in
    if length trimmed.1 == 0 then some (length trimmed.0) else table trimmed.0 trimmed.1

-- Nothing if a loop does not end.
unfoldable pub levenshtein_chars : List ℕ → List ℕ → Option ℕ
levenshtein_chars a b =
    let trimmed = trim_initial a b in
    let x = trimmed.0 in
    let y = trimmed.1 in
    if length x == 0
    then some (length y)
    else if length y == 0
    then some (length x)
    else if ltb (length x) (length y)
    then levenshtein_ordered y x
    else levenshtein_ordered x y

-- `some none` is -1.
unfoldable pub elevenshtein_chars : Bool → List ℕ → List ℕ → ℤ → Option (Option ℕ)
elevenshtein_chars same a b e =
    let lx = length a in
    let ly = length b in
    let dxy = (if ltb lx ly then ly - lx else lx - ly) in
    if is_zero e
    then some none
    else if same
    then some (some 0)
    else if leb (to_size e) dxy
    then some none
    else and_then (levenshtein_chars a b) (λ d. some (if below_int d e then some d else none))

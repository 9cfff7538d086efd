-- ===== src/Metric/Hamming.antt =====
-- Hamming distances of two strings: `diag_hamming_chars` and `diag_ehamming_chars` of src/hamming.c.
-- A string is the list of its characters before the '\0'; `same` is the test `x == y` of pointers.
pub mod Laws
use diagonal.Base.{
  ℕ, ◌+◌, ◌-◌, Bool, Option, none, some, List, [], ◌∷◌, ltb, leb, ◌==◌, if◌then◌else◌, length,
}
use diagonal.Base.Int.{ℤ, is_zero, to_size, below_int}

-- `if (*x++ != *y++) d++;`
abbrev pub count : ℕ → ℕ → ℕ → ℕ
count x y d = if x == y then d else d + 1

unfoldable pub hamming_loop : List ℕ → List ℕ → ℕ → ℕ
hamming_loop [] ys d = d + length ys
hamming_loop (x ∷ xs) [] d = d + length (x ∷ xs)
hamming_loop (x ∷ xs) (y ∷ ys) d = hamming_loop xs ys (count x y d)

unfoldable pub hamming_chars : Bool → List ℕ → List ℕ → ℕ
hamming_chars same xs ys = if same then 0 else hamming_loop xs ys 0

-- The loop with its test at the end; `none` is -1.
unfoldable pub ehamming_loop : List ℕ → List ℕ → ℕ → ℤ → Option ℕ
ehamming_loop [] ys d e = some d
ehamming_loop (x ∷ xs) [] d e = some d
ehamming_loop (x ∷ xs) (y ∷ ys) d e =
    let d' = count x y d in
    let rest = ehamming_loop xs ys d' e in if below_int d' e then rest else none

unfoldable pub ehamming_chars : Bool → List ℕ → List ℕ → ℤ → Option ℕ
ehamming_chars same xs ys e =
    let lx = length xs in
    let ly = length ys in
    let dxy = (if ltb lx ly then ly - lx else lx - ly) in
    if is_zero e
    then none
    else if same
    then some 0
    else if leb (to_size e) dxy
    then none
    else ehamming_loop xs ys dxy e

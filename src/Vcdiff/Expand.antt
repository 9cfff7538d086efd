-- ===== src/Vcdiff/Expand.antt =====
-- Scripts of instructions and their expansion: `diag_vcdiff_expand` of src/vcdiff.c.
pub mod Append
pub mod Result
mod Examples
use diagonal.Base.{
  ℕ, zero, suc, ◌+◌, ◌%◌, Option, none, some, List, [], ◌∷◌, ltb, leb, if◌then◌else◌, length,
  get_elem?, set, take, replicate,
}
use diagonal.Base.Slices.{overwrite}
use diagonal.Base.Word.{add_size, size_mod}

-- `struct diag_vcdiff_pcode` by its instruction: the size, then the attribute.
pub data Pcode : Type 0 where
  noop_code : ℕ → Pcode
  add_code : ℕ → List ℕ → Pcode
  run_code : ℕ → ℕ → Pcode
  copy_code : ℕ → ℕ → Pcode
  unknown_code : ℕ → Pcode

abbrev pub pcode_size : Pcode → ℕ
pcode_size (noop_code size) = size
pcode_size (add_code size bytes) = size
pcode_size (run_code size byte) = size
pcode_size (copy_code size addr) = size
pcode_size (unknown_code size) = size

-- Without a source the result itself is the source.
pub record Script : Type 0 where
  pub source : Option (List ℕ)
  pub pcodes : List Pcode

-- `result` and `n`
abbrev pub Output : Type 0
Output = List ℕ × ℕ

-- The sum of the sizes, or `none` if it leaves `size_t`.
unfoldable pub sum_loop : List Pcode → ℕ → Option ℕ
sum_loop [] s = some s
sum_loop (p ∷ ps) s =
    let s' = add_size s (pcode_size p) in
    let rest = sum_loop ps s' in if ltb s' (pcode_size p) then none else rest

-- In the rest of this file `none` is an access outside a block.
-- `result[n++] = b;`
unfoldable pub put : ℕ → Output → Option Output
put b (result, n) = if ltb n (length result) then some (set result n b, add_size n 1) else none

unfoldable pub add_bytes : ℕ → List ℕ → Output → Option Output
add_bytes size bytes (result, n) =
    if ltb (length bytes) size
    then none
    else if leb (n + size) (length result)
    then some (overwrite result n (take size bytes), add_size n size)
    else none

-- `k` rounds are left.
unfoldable pub run_bytes : ℕ → ℕ → Output → Option Output
run_bytes zero b out = some out
run_bytes (suc k) b out = elim (put b out) [ none ↦ none | some out' ↦ run_bytes k b out' ]

abbrev pub origin : Option (List ℕ) → List ℕ → List ℕ
origin none result = result
origin (some source) result = source

-- `k` rounds are left from round `i` on.
unfoldable pub copy_bytes : Option (List ℕ) → ℕ → ℕ → ℕ → Output → Option Output
copy_bytes source zero addr i out = some out
copy_bytes source (suc k) addr i (result, n) =
    elim (get_elem? (origin source result) (add_size addr i)) [
      | none ↦ none
      | some b ↦ elim (put b (result, n)) [
        | none ↦ none
        | some out ↦ copy_bytes source k addr (i + 1) out
      ]
    ]

unfoldable pub pcode_step : Option (List ℕ) → Pcode → Output → Option Output
pcode_step source (noop_code size) out = some out
pcode_step source (add_code size bytes) out = add_bytes size bytes out
pcode_step source (run_code size b) out = run_bytes size b out
pcode_step source (copy_code size addr) out = copy_bytes source size addr 0 out
pcode_step source (unknown_code size) out = some out

unfoldable pub pcodes_loop : Option (List ℕ) → List Pcode → Output → Option Output
pcodes_loop source [] out = some out
pcodes_loop source (p ∷ ps) out = elim (pcode_step source p out) [
  | none ↦ none
  | some out' ↦ pcodes_loop source ps out'
]

-- What `diag_vcdiff_expand` returns; `*size` is the length.
pub data Expanded : Type 0 where
  expanded : List ℕ → Expanded
  null fault : Expanded

unfoldable pub diag_vcdiff_expand : Script → Expanded
diag_vcdiff_expand script = elim (sum_loop script.pcodes 0) [
  | none ↦ Expanded.null
  | some s ↦ elim (pcodes_loop script.source script.pcodes (replicate s 0, 0)) [
    | none ↦ Expanded.fault
    | some (result, n) ↦ Expanded.expanded result
  ]
]

-- ===== src/Vcdiff/Expand/Result.antt =====
-- The expansion of a whole script.
use diagonal.Base.{
  ℕ, ◌+◌, ◌-◌, ◌≤◌, ◌<◌, ◌≡◌, refl, ap, ◌∙◌, Option, some, List, [], ◌∷◌, ◌++◌, arith, le→ltb,
  length, take, replicate, length-append, length-take, length-replicate,
}
use diagonal.Base.Word.{add_size, size_mod}
use diagonal.Vcdiff.Expand.{
  Pcode, noop_code, add_code, run_code, copy_code, unknown_code, pcode_size, Script, sum_loop,
  pcode_step, pcodes_loop, Expanded, diag_vcdiff_expand,
}
use diagonal.Vcdiff.Expand.Append.{
  append_pcode, append_pcodes, total, IsPcode, ArePcodes, buffer, run_bytes_ok, add_bytes_ok,
  copy_bytes_ok, length-append_copy,
}

sum_loop-total :
    (ps : List Pcode) (s : ℕ) → s + total ps < size_mod → sum_loop ps s ≡ some (s + total ps)
unfolding sum_loop
sum_loop-total [] s h = ap some (omega arith)
sum_loop-total (p ∷ ps) s h =
    let sum : add_size s (pcode_size p) ≡ s + pcode_size p = omega arith in
    rw (sum, le→ltb (s + pcode_size p) (pcode_size p) (omega arith))
      (sum_loop-total ps (s + pcode_size p) (omega arith) ∙ ap some (omega arith))

module _ (source : Option (List ℕ)) where
  -- One instruction leaves at least the room that the others need.
  pcode_step_ok :
      (p : Pcode) (m r : ℕ) (out : List ℕ)
      → r ≡ pcode_size p + m
      → length out + r < size_mod
      → IsPcode source out p
      → (m' : ℕ) × (pcode_step source p (buffer out r)
          ≡ some (buffer (append_pcode source p out) m'))
        × (length (append_pcode source p out) + m' ≡ length out + r)
        × (m ≤ m')
  unfolding pcode_step
  pcode_step_ok (noop_code size) m r out e fits h = (r, refl, refl, omega arith)
  pcode_step_ok (add_code size bytes) m r out e fits h = (
    m,
    add_bytes_ok size m r bytes out e fits h,
    omega (arith, length-append out (take size bytes), length-take size bytes),
    omega arith,
  )
  pcode_step_ok (run_code size b) m r out e fits h = (
    m,
    run_bytes_ok size m r b out e fits,
    omega (arith, length-append out (replicate size b), length-replicate size b),
    omega arith,
  )
  pcode_step_ok (copy_code size addr) m r out e fits h =
      let start : addr + 0 ≡ addr = omega arith in
      (
        m,
        rw start at (copy_bytes_ok source size m r addr 0 out e fits (rw start h)),
        omega (arith, length-append_copy source size addr out),
        omega arith,
      )
  pcode_step_ok (unknown_code size) m r out e fits h = (r, refl, refl, omega arith)

  pcodes_loop_ok :
      (ps : List Pcode) (r : ℕ) (out : List ℕ)
      → total ps ≤ r
      → length out + r < size_mod
      → ArePcodes source ps out
      → (m : ℕ) × (pcodes_loop source ps (buffer out r)
          ≡ some (buffer (append_pcodes source ps out) m))
        × (length (append_pcodes source ps out) + m ≡ length out + r)
  unfolding pcodes_loop
  pcodes_loop_ok [] r out h fits are = (r, refl, refl)
  pcodes_loop_ok (p ∷ ps) r out h fits (is, are) =
      let (m, e, whole, room) = pcode_step_ok p (r - pcode_size p) r out (omega arith) fits is in
      let (m', e', whole') =
        pcodes_loop_ok ps m (append_pcode source p out) (omega arith) (omega arith) are in
      (m', rw (e, pcodes_loop) e', omega arith)

-- A script whose sizes add up to less than 2 ^ 64, whose ADDs hold their bytes and whose COPYs read
-- from the source, or without one from what has been written, is expanded within its buffer. The
-- result is what its instructions append one after the other, and zeros for the sizes of those
-- that write nothing.
pub diag_vcdiff_expand-append_pcodes :
    (script : Script)
    → total script.pcodes < size_mod
    → ArePcodes script.source script.pcodes []
    → diag_vcdiff_expand script
      ≡ Expanded.expanded (
          append_pcodes script.source script.pcodes []
          ++ replicate
              (total script.pcodes - length (append_pcodes script.source script.pcodes []))
              0)
unfolding diag_vcdiff_expand
diag_vcdiff_expand-append_pcodes script fits are =
    let s = total script.pcodes in
    let sum : sum_loop script.pcodes 0 ≡ some s =
      sum_loop-total script.pcodes 0 (omega arith) ∙ ap some (omega arith) in
    let (m, e, whole) =
      pcodes_loop_ok script.source script.pcodes s [] (omega arith) (omega arith) are in
    let left : m ≡ s - length (append_pcodes script.source script.pcodes []) = omega arith in
    rw (sum, diag_vcdiff_expand) (rw (e, diag_vcdiff_expand) (rw left))

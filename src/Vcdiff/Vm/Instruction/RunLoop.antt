-- ===== src/Vcdiff/Vm/Instruction/RunLoop.antt =====
-- The loop of the RUN instruction, whose counter is a `uint8_t`.
use diagonal.Base.{
  ℕ, zero, suc, ◌+◌, ◌%◌, ◌≤◌, ◌<◌, ◌≡◌, refl, ap, ◌∙◌, List, [], ◌∷◌, arith, lt→ltb, le→ltb,
  length, set, replicate, length-set,
}
use diagonal.Base.Slices.{overwrite, take-append-drop}
use diagonal.Base.Word.{add32, u32_mod}
use diagonal.Vcdiff.Vm.{Vm, Run}
use diagonal.Vcdiff.Vm.Instruction.{run_loop}

-- A write at the front of the part that `n` equal bytes are written over next.
overwrite-replicate_step :
    (xs : List ℕ) (at n b : ℕ)
    → at + suc n ≤ length xs
    → overwrite (set xs at b) (suc at) (replicate n b) ≡ overwrite xs at (replicate (suc n) b)
overwrite-replicate_step [] at n b h = absurd (omega arith)
overwrite-replicate_step (x ∷ xs) zero n b h = refl
overwrite-replicate_step (x ∷ xs) (suc at) n b h =
    ap (λ t. x ∷ t) (overwrite-replicate_step xs at n b (omega arith))

overwrite-nil : (xs : List ℕ) (at : ℕ) → overwrite xs at [] ≡ xs
overwrite-nil xs at = take-append-drop at xs

-- From counter `i` the loop stores the remaining `n` bytes, if they lie in the target.
pub run_loop_stores :
    (n rounds here size b i : ℕ) (vm : Vm)
    → i + n ≡ size
    → n < rounds
    → size < 256
    → here + size ≤ length vm.target
    → length vm.target < u32_mod
    → run_loop rounds here size b i vm
      ≡ Run.ok tt (record vm { target = overwrite vm.target (here + i) (replicate n b) })
unfolding run_loop
run_loop_stores n zero here size b i vm e h k fits word = absurd (omega arith)
run_loop_stores zero (suc rounds) here size b i vm e h k fits word =
    rw (le→ltb i size (omega arith), overwrite-nil vm.target (here + i))
run_loop_stores (suc n) (suc rounds) here size b i vm e h k fits word =
    let at : add32 here i ≡ here + i = omega arith in
    let counter : (i + 1) % 256 ≡ i + 1 = omega arith in
    let place : here + (i + 1) ≡ suc (here + i) = omega arith in
    let rest =
      run_loop_stores n rounds here size b (i + 1)
        (record vm { target = set vm.target (here + i) b }) (omega arith) (omega arith) k
        (omega (arith, length-set vm.target (here + i) b))
        (omega (arith, length-set vm.target (here + i) b)) in
    rw
      (lt→ltb i size (omega arith), at, lt→ltb (here + i) (length vm.target) (omega arith), counter)
      (rest ∙ rw (place, overwrite-replicate_step vm.target (here + i) n b (omega arith)))

-- For a size from 256 on, and a run in a target of less than 2 ^ 32 bytes, the counter comes back to
-- 0 and the loop never ends: no number of rounds is enough.
pub run_loop-stuck :
    (rounds here size b i : ℕ) (vm : Vm)
    → 256 ≤ size
    → i < 256
    → here + size ≤ length vm.target
    → length vm.target < u32_mod
    → run_loop rounds here size b i vm ≡ Run.stuck
unfolding run_loop
run_loop-stuck zero here size b i vm h k fits word = refl
run_loop-stuck (suc rounds) here size b i vm h k fits word =
    let at : add32 here i ≡ here + i = omega arith in
    rw (lt→ltb i size (omega arith), at, lt→ltb (here + i) (length vm.target) (omega arith))
      (run_loop-stuck rounds here size b ((i + 1) % 256)
        (record vm { target = set vm.target (here + i) b }) h (omega arith)
        (omega (arith, length-set vm.target (here + i) b))
        (omega (arith, length-set vm.target (here + i) b)))

-- From counter `i` the loop leaves the target after `n` bytes, if it has as many rounds.
pub run_loop_leaves :
    (n rounds here size b i : ℕ) (vm : Vm)
    → here + i + n ≡ length vm.target
    → i + n < 256
    → n < rounds
    → i + n < size
    → length vm.target < u32_mod
    → run_loop rounds here size b i vm ≡ Run.fault
unfolding run_loop
run_loop_leaves n zero here size b i vm e h k big word = absurd (omega arith)
run_loop_leaves zero (suc rounds) here size b i vm e h k big word =
    rw (lt→ltb i size (omega arith), le→ltb (add32 here i) (length vm.target) (omega arith))
run_loop_leaves (suc n) (suc rounds) here size b i vm e h k big word =
    let at : add32 here i ≡ here + i = omega arith in
    let counter : (i + 1) % 256 ≡ i + 1 = omega arith in
    rw
      (lt→ltb i size (omega arith), at, lt→ltb (here + i) (length vm.target) (omega arith), counter)
      (run_loop_leaves n rounds here size b (i + 1)
        (record vm { target = set vm.target (here + i) b })
        (omega (arith, length-set vm.target (here + i) b)) (omega arith) (omega arith)
        (omega (arith, big)) (omega (arith, length-set vm.target (here + i) b)))

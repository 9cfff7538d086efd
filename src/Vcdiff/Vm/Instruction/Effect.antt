-- ===== src/Vcdiff/Vm/Instruction/Effect.antt =====
-- What ADD, RUN and COPY do to the target, and where RUN goes wrong.
use diagonal.Base.{
  ℕ, ◌+◌, ◌-◌, ◌≤◌, ◌<◌, ◌≡◌, true, false, List, ◌∷◌, arith, ltb, leb, le→ltb, length, take, drop,
  replicate, length-take,
}
use diagonal.Base.Slices.{slice, overwrite, length-slice}
use diagonal.Base.Word.{add32, u32_mod}
use diagonal.Vcdiff.CodeTable.{add, run, copy}
use diagonal.Vcdiff.Vm.{Vm, Run, vm_addr_decode}
use diagonal.Vcdiff.Vm.Instruction.{
  block, write_target, read_source, read_data, decode_add, decode_run, decode_copy, vm_decode,
}
use diagonal.Vcdiff.Vm.Instruction.RunLoop.{run_loop_stores, run_loop_leaves}

write_target-ok :
    (vm : Vm) (here : ℕ) (bytes : List ℕ)
    → here + length bytes ≤ length vm.target
    → write_target here bytes vm ≡ Run.ok tt (record vm { target = overwrite vm.target here bytes })
unfolding write_target
write_target-ok vm here bytes h =
    let fits : leb (here + length bytes) (length vm.target) ≡ true = ground arith in rw fits

module _ (vm : Vm) (here size mode : ℕ) (sized : length vm.target ≡ vm.s_target)
    (word : vm.s_target < u32_mod) (room : here + size ≤ vm.s_target) where
  room_test : ltb vm.s_target (add32 here size) ≡ false
  room_test = le→ltb vm.s_target (add32 here size) (omega arith)

  ends : add32 here size ≡ here + size
  ends = omega arith

  -- In a target of the declared size, below 2 ^ 32, with room for `size` bytes at `here`, ADD takes
  -- the next `size` bytes of the data section, if it has them, and writes them at `here`.
  pub vm_decode-add :
      size ≤ length vm.data_left
      → vm_decode here add size mode vm
        ≡ Run.ok (here + size) (record vm {
          target = overwrite vm.target here (take size vm.data_left);
          data_left = drop size vm.data_left;
        })
  unfolding vm_decode decode_add read_data
  vm_decode-add held =
      let whole : leb size (length vm.data_left) ≡ true = ground (arith, held) in
      rw (
        room_test,
        le→ltb (length vm.data_left) size held,
        whole,
        write_target-ok vm here (take size vm.data_left)
            (omega (arith, length-take size vm.data_left)),
        ends,
      )

  -- In such a target RUN takes one byte of a data section that has one and writes it `size` times,
  -- for sizes below 256.
  pub vm_decode-run :
      (b : ℕ) (left : List ℕ)
      → vm.data_left ≡ b ∷ left
      → size < 256
      → vm_decode here run size mode vm
        ≡ Run.ok
            (here + size)
            (record vm { target = overwrite vm.target here (replicate size b); data_left = left })
  unfolding vm_decode decode_run
  vm_decode-run b left e small =
      let start : here + 0 ≡ here = omega arith in
      let stored =
        run_loop_stores size 256 here size b 0 (record vm { data_left = left }) (omega arith)
          (omega arith) small (omega arith) (omega arith) in
      rw (room_test, e, decode_run) (rw (stored, ends, start))

  -- In such a target COPY reads an address, which keeps the size of the target, and writes the `size`
  -- bytes at that address of the segment at `here`, if they lie in the segment and the segment in
  -- its block: the bytes are all read before the first is written.
  pub vm_decode-copy :
      (addr : ℕ) (w : Vm)
      → vm_addr_decode here mode vm ≡ Run.ok addr w
      → length w.target ≡ length vm.target
      → w.src + addr + size ≤ w.src_s
      → w.src_s ≤ length (block w.region w.source w.target)
      → vm_decode here copy size mode vm
        ≡ Run.ok (here + size) (record w {
          target =
              overwrite w.target here
                (slice (block w.region w.source w.target) (w.src + addr) size);
        })
  unfolding vm_decode decode_copy read_source
  vm_decode-copy addr w e same within segment =
      let from = block w.region w.source w.target in
      let inside : leb (w.src + addr + size) (length from) ≡ true = ground arith in
      let held = le→ltb w.src_s (w.src + addr + size) within in
      rw (
        room_test,
        e,
        held,
        inside,
        write_target-ok w here (slice from (w.src + addr) size)
            (omega (arith, length-slice from (w.src + addr) size (omega arith))),
        ends,
      )

-- The sum `here + size` of the guard is taken in 32 bits. With a byte in the data section and fewer
-- than 256 bytes left in the target, a RUN whose true end lies past 2 ^ 32, but whose wrapped end
-- lies before that of the target, passes the guard and writes past the target's end.
pub vm_decode-run_overflow :
    (vm : Vm) (here size mode b : ℕ) (left : List ℕ)
    → vm.data_left ≡ b ∷ left
    → length vm.target ≡ vm.s_target
    → vm.s_target < u32_mod
    → here ≤ vm.s_target
    → vm.s_target < here + 256
    → size < u32_mod
    → here + size < u32_mod + vm.s_target
    → u32_mod ≤ here + size
    → vm_decode here run size mode vm ≡ Run.fault
unfolding vm_decode decode_run
vm_decode-run_overflow vm here size mode b left e sized word within short fits wraps over =
    let passes : ltb vm.s_target (add32 here size) ≡ false = le→ltb _ _ (omega arith) in
    let leaves =
      run_loop_leaves (vm.s_target - here) 256 here size b 0 (record vm { data_left = left })
        (omega arith) (omega arith) (omega arith) (omega arith) (omega arith) in
    rw (passes, e, decode_run) (rw leaves)

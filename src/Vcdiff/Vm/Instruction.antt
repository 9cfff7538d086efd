-- ===== src/Vcdiff/Vm/Instruction.antt =====
-- `vm_decode` of src/vcdiff.c: one instruction.
pub mod RunLoop
pub mod Effect
pub mod Safety
use diagonal.Base.{
  ℕ, zero, suc, ◌+◌, ◌%◌, List, [], ◌∷◌, ltb, leb, ◌==◌, if◌then◌else◌, length, take, drop, set,
}
use diagonal.Base.Slices.{slice, overwrite}
use diagonal.Base.Word.{add32}
use diagonal.Vcdiff.CodeTable.{noop, add, run, copy}
use diagonal.Vcdiff.Vm.{
  Region, in_source, in_target, Vm, Error, Run, Command, pure, ◌>>=◌, ◌>>◌, and_then, error_if,
  vm_addr_decode,
}

-- `memmove(vm->target + here, bytes, size)`
pub write_target : ℕ → List ℕ → Command (Unit {0})
write_target here bytes vm =
    if leb (here + length bytes) (length vm.target)
    then Run.ok tt (record vm { target = overwrite vm.target here bytes })
    else Run.fault

-- The block that `src` points into.
abbrev pub block : Region → List ℕ → List ℕ → List ℕ
block in_source source target = source
block in_target source target = target

-- The `size` bytes at `vm->src + addr`.
pub read_source : ℕ → ℕ → Command (List ℕ)
read_source addr size vm =
    let from = block vm.region vm.source vm.target in
    if leb (vm.src + addr + size) (length from)
    then Run.ok (slice from (vm.src + addr) size) vm
    else Run.fault

-- The `size` bytes at `vm->data`.
pub read_data : ℕ → Command (List ℕ)
read_data size vm =
    if leb size (length vm.data_left) then Run.ok (take size vm.data_left) vm else Run.fault

pub decode_add : ℕ → ℕ → Command ℕ
decode_add here size vm =
    (do
      error_if (ltb vm.s_target (add32 here size)) Error.exceed_target
      error_if (ltb (length vm.data_left) size) Error.exceed_data
      bytes ← read_data size
      write_target here bytes
      λ vm'. Run.ok (add32 here size) (record vm' { data_left = drop size vm'.data_left }))
      vm

-- `for (i = 0; i < size; i++) vm->target[here + i] = b;` with its `uint8_t i`.
pub run_loop : ℕ → ℕ → ℕ → ℕ → ℕ → Command (Unit {0})
run_loop zero here size b i vm = Run.stuck
run_loop (suc rounds) here size b i vm =
    let at = add32 here i in
    let next =
      run_loop rounds here size b ((i + 1) % 256) (record vm { target = set vm.target at b }) in
    let stored = (if ltb at (length vm.target) then next else Run.fault) in
    if ltb i size then stored else Run.ok tt vm

-- 256 rounds are enough for every size below 256, and no number of rounds is for a larger one.
pub decode_run : ℕ → ℕ → Command ℕ
decode_run here size vm =
    and_then (error_if (ltb vm.s_target (add32 here size)) Error.exceed_target vm) λ _ _.
      elim vm.data_left [
        | [] ↦ Run.err Error.exceed_data
        | b ∷ left ↦
            and_then (run_loop 256 here size b 0 (record vm { data_left = left }))
              λ _. pure (add32 here size)
      ]

pub decode_copy : ℕ → ℕ → ℕ → Command ℕ
decode_copy here size mode vm =
    (do
      error_if (ltb vm.s_target (add32 here size)) Error.exceed_target
      addr ← vm_addr_decode here mode
      λ vm'. error_if (ltb vm'.src_s (vm'.src + addr + size)) Error.exceed_source vm'
      bytes ← read_source addr size
      write_target here bytes
      pure (add32 here size))
      vm

pub vm_decode : ℕ → ℕ → ℕ → ℕ → Command ℕ
vm_decode here inst size mode =
    if inst == noop
    then pure here
    else if inst == add
    then decode_add here size
    else if inst == run
    then decode_run here size
    else if inst == copy
    then decode_copy here size mode
    else λ vm. Run.err Error.unknown_instruction

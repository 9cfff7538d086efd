-- ===== src/Vcdiff/Vm/Decode.antt =====
-- `diag_vcdiff_decode` of src/vcdiff.c: all windows of a stream.
pub mod Safety
pub mod Overflow
use diagonal.Base.{
  ℕ, zero, suc, ◌+◌, Bool, true, false, Option, none, some, List, [], ◌∷◌, ◌++◌, ltb, leb, ◌==◌,
  if◌then◌else◌, length, get_elem?, get_or, take, drop, replicate,
}
use diagonal.Base.Word.{add32}
use diagonal.Port.Input.{Read}
use diagonal.Port.Memory.{MemoryPort, new_bm, memory_reader}
use diagonal.Vcdiff.{Delta, Window, Vcdiff, sourcep, targetp, codetablep}
use diagonal.Vcdiff.Cache.{cache_init}
use diagonal.Vcdiff.CodeTable.{
  noop, Code, CodeTable, default_code_table, default_code_table_entries,
  code_table_entries_from_string, code_table_entries_to_string,
}
use diagonal.Vcdiff.Read.{diag_vcdiff_read}
use diagonal.Vcdiff.Vm.{
  Region, in_source, in_target, Vm, Error, Run, Command, pure, ◌>>=◌, ◌>>◌, and_then, error_if, at,
  vm_inst_read_size,
}
use diagonal.Vcdiff.Vm.Instruction.{vm_decode}

-- The size of one half of an entry.
pub size_of : ℕ → ℕ → Command ℕ
size_of inst size =
    if inst == noop then pure size else if size == 0 then vm_inst_read_size else pure size

-- `if (here > vm->s_target) vm->error(…)`
pub check_here : ℕ → Command (Unit {0})
check_here here vm = error_if (ltb vm.s_target here) Error.exceed_target vm

-- One round of the loop over the instructions section, at its first byte `idx`.
pub execute : ℕ → ℕ → Command ℕ
execute idx here vm =
    (do
      code ← at (get_elem? vm.entries idx)
      size1 ← size_of code.inst1 code.size1
      size2 ← size_of code.inst2 code.size2
      here1 ← vm_decode here code.inst1 size1 code.mode1
      check_here here1
      here2 ← vm_decode here1 code.inst2 size2 code.mode2
      check_here here2
      pure here2)
      vm

-- Each round takes a byte at least, so the section's length is enough fuel.
pub instructions_loop : ℕ → ℕ → Command ℕ
instructions_loop zero here vm = elim vm.inst [ [] ↦ Run.ok here vm | idx ∷ left ↦ Run.stuck ]
instructions_loop (suc fuel) here vm = elim vm.inst [
  | [] ↦ Run.ok here vm
  | idx ∷ left ↦
      and_then (execute idx here (record vm { inst = left })) λ here'. instructions_loop fuel here'
]

-- The source segment of a window, and its three sections.
pub window_open : ℕ → Window → Command (Unit {0})
window_open here window vm =
    let delta = window.delta in
    let pos = window.position_source_segment in
    let len = window.length_source_segment in
    let sections = record vm {
      data_left = delta.inst_data;
      inst = delta.inst;
      addr = delta.addr;
    } in
    if sourcep window.indicator
    then (do
      error_if (ltb (length vm.source) (add32 pos len)) Error.exceed_source
      λ _. Run.ok tt (record sections { region = in_source; src = pos; src_s = pos + len }))
        vm
    else if targetp window.indicator
    then (do
      error_if (ltb vm.s_target (add32 pos len)) Error.exceed_target
      λ _. Run.ok tt (record sections { region = in_target; src = pos; src_s = pos + len }))
        vm
    else (do
      error_if (ltb vm.s_target (add32 here delta.s_window)) Error.exceed_target
      λ _.
          Run.ok tt
            (record sections { region = in_target; src = here; src_s = here + delta.s_window }))
        vm

pub window_decode : ℕ → Window → Command ℕ
window_decode here window =
    window_open here window >> instructions_loop (length window.delta.inst) here

pub windows_decode : List Window → ℕ → Command ℕ
windows_decode [] here = pure here
windows_decode (w ∷ ws) here = window_decode here w >>= windows_decode ws

-- `s_target += vcdiff->windows[i]->delta->s_window` over all windows
unfoldable pub target_size : List Window → ℕ → ℕ
target_size [] s_target = s_target
target_size (w ∷ ws) s_target = target_size ws (add32 s_target w.delta.s_window)

-- The machine as `vm_new` and the first part of `diag_vcdiff_decode` set it up.
pub vm_start : List ℕ → CodeTable → List Window → Vm
vm_start source table windows = record {
  source = source;
  s_target = target_size windows 0;
  target = replicate (target_size windows 0) 0;
  cache = cache_init table.s_near table.s_same;
  entries = table.entries;
  region = in_source;
  src = 0;
  src_s = 0;
  data_left = [];
  inst = [];
  addr = [];
}

-- What `diag_vcdiff_decode` returns: the target, or NULL after an error.
pub data Decoded : Type 0 where
  decoded : List ℕ → Decoded
  null fault stuck : Decoded

abbrev finish : Run ℕ → Decoded
finish (Run.ok here vm) = Decoded.decoded vm.target
finish (Run.err e) = Decoded.null
finish Run.fault = Decoded.fault
finish Run.stuck = Decoded.stuck

pub decode_with : List ℕ → CodeTable → Vcdiff → Decoded
decode_with source table vcdiff =
    let windows = take vcdiff.num_windows vcdiff.windows in
    finish (windows_decode windows 0 (vm_start source table windows))

-- The table that a decoded string of 1536 bytes stands for, handed to `use`.
with_table : List ℕ → Decoded → (CodeTable → Decoded) → Decoded
with_table bytes (Decoded.decoded str) use_table =
    if length str == 1536
    then use_table (record {
      s_near = get_or bytes 0 0;
      s_same = get_or bytes 1 0;
      entries = code_table_entries_from_string str;
    })
    else Decoded.fault
with_table bytes Decoded.null use_table = Decoded.fault
with_table bytes Decoded.fault use_table = Decoded.fault
with_table bytes Decoded.stuck use_table = Decoded.stuck

-- `decode` decodes the table's own stream against the default table in its transfer form. Every
-- error here calls `vm->error` before `setjmp` has set its target, so that jump is undefined.
pub code_table_decode :
    (List ℕ → Vcdiff → Decoded) → Option (List ℕ) → (CodeTable → Decoded) → Decoded
unfolding with_table
code_table_decode decode none use_table = Decoded.fault
code_table_decode decode (some bytes) use_table =
    let string = code_table_entries_to_string default_code_table_entries in
    let read =
      (elim (diag_vcdiff_read memory_reader (length bytes) 1 (new_bm (drop 2 bytes)))
        as (λ _. Decoded) [
          | Read.ok v _ ↦ with_table bytes (decode string v) use_table
          | Read.stuck ↦ Decoded.stuck
          | _ ↦ Decoded.fault
        ]) in
    if leb (length bytes) 2 then Decoded.fault else read

-- A code table is itself a stream, which may hold a code table: `depth` bounds the nesting.
pub diag_vcdiff_decode : ℕ → List ℕ → Vcdiff → Decoded
diag_vcdiff_decode zero source vcdiff = Decoded.stuck
diag_vcdiff_decode (suc depth) source vcdiff =
    if codetablep vcdiff.indicator
    then code_table_decode (diag_vcdiff_decode depth) vcdiff.code_table_data
        (λ table. decode_with source table vcdiff)
    else decode_with source default_code_table vcdiff

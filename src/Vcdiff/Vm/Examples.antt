-- ===== src/Vcdiff/Vm/Examples.antt =====
-- Runs and instances for the machine: its cache, one instruction of each kind, whole windows.
use diagonal.Base.{
  ℕ, zero, suc, ◌≡◌, ◌≢◌, ◌<◌, refl, List, [], ◌∷◌, ◌++◌, arith, replicate, length-replicate, All,
  none, some, take, length,
}
use diagonal.Vcdiff.{Window, Vcdiff}
use diagonal.Vcdiff.Cache.{Cache, cache_init, cache_update}
use diagonal.Vcdiff.Cache
use diagonal.Vcdiff.Cache.Laws.{cache_init-IsValid, IsUpdated, cache_update-IsUpdated}
use diagonal.Vcdiff.CodeTable.{Code, CodeTable, add, run, copy, code}
use diagonal.Vcdiff.Vm.{in_source, Vm, Run, vm_addr_decode}
use diagonal.Vcdiff.Vm.Address.{addr_encode, address_bytes, vm_addr_decode-addr_encode}
use diagonal.Vcdiff.Vm.Safety.{NoFault, IsSafe}
use diagonal.Vcdiff.Vm.Instruction.{vm_decode, run_loop}
use diagonal.Vcdiff.Vm.Instruction.Safety.{EndsWithin, vm_decode-NoFault}
use diagonal.Vcdiff.Vm.Instruction.RunLoop.{run_loop-stuck}
use diagonal.Vcdiff.Vm.Instruction.Effect.{vm_decode-run_overflow}
use diagonal.Vcdiff.Vm.Decode.{window_open, Decoded, decode_with, target_size}
use diagonal.Vcdiff.Vm.Decode.Overflow.{window_open-past_source}
use diagonal.Vcdiff.Vm.Decode.Safety.{IsSizedCode, IsSizedTable, Fits, decode_with-ne-fault}

abbrev caches : Cache
caches = cache_init 4 3

caches-IsValid : Cache.IsValid caches
caches-IsValid = cache_init-IsValid 4 3 (omega arith) (omega arith)

cache_update-IsUpdated_example :
    (cache' : Cache) × (cache_update caches 700 ≡ some cache')
    × Cache.IsValid cache'
    × IsUpdated caches 700 cache'
cache_update-IsUpdated_example = cache_update-IsUpdated caches 700 (omega arith) caches-IsValid

abbrev entries : List Code
entries = replicate 256 (code copy 4 0 add 1 0)

-- Six bytes of target, the first two of them decoded.
abbrev machine : Vm
machine = record {
  source = 10 ∷ 11 ∷ 12 ∷ 13 ∷ [];
  s_target = 6;
  target = 20 ∷ 21 ∷ 0 ∷ 0 ∷ 0 ∷ 0 ∷ [];
  cache = caches;
  entries = entries;
  region = in_source;
  src = 0;
  src_s = 4;
  data_left = 30 ∷ 31 ∷ 32 ∷ [];
  inst = [];
  addr = 1 ∷ [];
}

machine-IsSafe : IsSafe entries machine
machine-IsSafe = record {
  entries_kept = refl;
  inst_bytes = tt;
  target_size = refl;
  cache_valid = caches-IsValid;
  segment = omega arith;
  data_room = omega arith;
  segment_room = omega arith;
  run_room = omega arith;
}

vm_decode-NoFault_example : NoFault (EndsWithin entries 6) (vm_decode 2 copy 3 0 machine)
vm_decode-NoFault_example =
    vm_decode-NoFault machine machine-IsSafe 2 3 (omega arith) copy 0 (λ e. omega arith)

vm_addr_decode-addr_encode_example :
    (d : ℕ) × (mode : ℕ) × (cache : Cache) × (addr_encode caches 700 900 ≡ some (d, mode, cache))
    × (mode < 256)
    × (vm_addr_decode 900 mode (record machine { addr = address_bytes caches mode d ++ (5 ∷ []) })
        ≡ Run.ok 700 (record machine { addr = 5 ∷ []; cache = cache }))
    × Cache.IsValid cache
    × IsUpdated caches 700 cache
unfolding cache_init
vm_addr_decode-addr_encode_example =
    vm_addr_decode-addr_encode machine 700 900 (5 ∷ []) (omega arith) (omega arith) caches-IsValid
      (omega arith)

room : length (replicate 256 zero) ≡ 256
room = length-replicate 256 zero

run_loop-stuck_example :
    run_loop 300 0 256 7 0 (record machine { target = replicate 256 0; s_target = 256 }) ≡ Run.stuck
run_loop-stuck_example =
    run_loop-stuck 300 0 256 7 0 (record machine { target = replicate 256 0; s_target = 256 })
      (omega arith) (omega arith) (omega (arith, room)) (omega (arith, room))

vm_decode-run_overflow_example : vm_decode 2 run 0xfffffffe 0 machine ≡ Run.fault
vm_decode-run_overflow_example =
    vm_decode-run_overflow machine 2 0xfffffffe 0 30 (31 ∷ 32 ∷ []) refl refl (omega arith)
      (omega arith) (omega arith) (omega arith) (omega arith) (omega arith)

All-replicate : {A : Type 0} (P : A → Type 0) (n : ℕ) (x : A) → P x → All P (replicate n x)
All-replicate P zero x p = tt
All-replicate P (suc n) x p = (p, All-replicate P n x p)

entries-IsSizedTable : IsSizedTable entries
entries-IsSizedTable = record {
  full = length-replicate 256 (code copy 4 0 add 1 0);
  sized = All-replicate IsSizedCode 256 (code copy 4 0 add 1 0) (record {
    first = record { own_size = λ e. absurd (omega (arith, e)); is_byte = omega arith };
    second = record { own_size = λ e. absurd (omega (arith, e)); is_byte = omega arith };
  });
}

-- COPY 4 from address 1 of the segment, then ADD 1.
abbrev window : Window
window = record {
  indicator = 1;
  length_source_segment = 6;
  position_source_segment = 3;
  delta = record {
    length = 7;
    s_window = 5;
    indicator = 0;
    inst_data = 65 ∷ [];
    inst = 20 ∷ [];
    addr = 1 ∷ [];
  };
}

abbrev stream : Vcdiff
stream = record {
  version = 0;
  indicator = 0;
  compressor_id = none;
  code_table_data = none;
  num_windows = 1;
  windows = window ∷ [];
}

abbrev table : CodeTable
table = record { s_near = 4; s_same = 3; entries = entries }

abbrev old : List ℕ
old = 1 ∷ 2 ∷ 3 ∷ 4 ∷ 5 ∷ 6 ∷ 7 ∷ 8 ∷ 9 ∷ []

window-Fits : Fits 5 window
window-Fits = record {
  inst_bytes = (omega arith, tt);
  data_room = omega arith;
  segment_room = omega arith;
  window_room = omega arith;
}

target_size-stream : target_size (take stream.num_windows stream.windows) 0 ≡ 5
unfolding target_size
target_size-stream = refl

decode_with-ne-fault_example : decode_with old table stream ≢ Decoded.fault
decode_with-ne-fault_example =
    decode_with-ne-fault old table stream entries-IsSizedTable (omega arith) (omega arith)
      (omega (arith, target_size-stream)) (rw target_size-stream (window-Fits, tt))

-- A segment at 2 ^ 32 - 1 of ten bytes, in a source of nine.
abbrev far_window : Window
far_window = record window { length_source_segment = 10; position_source_segment = 0xffffffff }

abbrev nine : Vm
nine = record machine { source = old }

window_open-past_source_example :
    (vm' : Vm) × (window_open 2 far_window nine ≡ Run.ok tt vm')
    × (vm'.source ≡ old)
    × (length vm'.source < vm'.src_s)
window_open-past_source_example =
    window_open-past_source nine 2 far_window refl (omega arith) (omega arith) (omega arith)

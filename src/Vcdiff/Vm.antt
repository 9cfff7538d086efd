-- ===== src/Vcdiff/Vm.antt =====
-- The virtual machine of src/vcdiff.c: its state, and what it reads from the sections of a window.
pub mod Instruction
pub mod Decode
pub mod Address
pub mod Safety
mod Examples
use diagonal.Base.{
  ℕ, zero, suc, ◌+◌, ◌-◌, ◌*◌, ◌%◌, Bool, true, false, ◌&&◌, Option, none, some, List, [], ◌∷◌, ltb,
  leb, ◌==◌, if◌then◌else◌, length, get_elem?,
}
use diagonal.Base.Word.{add32, sub32, mul32}
use diagonal.Vcdiff.Integer.{read_integer}
use diagonal.Vcdiff.Cache.{Cache, cache_update}
use diagonal.Vcdiff.CodeTable.{Code}

-- The buffer that `src` points into.
pub data Region : Type 0 where
  in_source in_target : Region

-- `src` and `src_s` are offsets into the region; a pair of pointers such as `data` and `data_s` is
-- the list between them.
pub record Vm : Type 0 where
  pub source : List ℕ
  pub s_target : ℕ
  pub target : List ℕ
  pub cache : Cache
  pub entries : List Code
  pub region : Region
  pub src : ℕ
  pub src_s : ℕ
  pub data_left : List ℕ
  pub inst : List ℕ
  pub addr : List ℕ

-- The messages of `vm->error`.
pub data Error : Type 0 where
  exceed_instructions exceed_addresses exceed_same_cache exceed_target exceed_data : Error
  exceed_source unknown_instruction : Error

-- `err` is the jump to `bail`, `fault` an access outside an allocated block, and `stuck` a loop
-- that ran out of fuel.
pub data Run (A : Type 0) : Type 0 where
  ok : A → Vm → Run A
  err : Error → Run A
  fault : Run A
  stuck : Run A

abbrev pub Command : Type 0 → Type 0
Command A = Vm → Run A

abbrev pub pure : {A : Type 0} → A → Command A
pure a vm = Run.ok a vm

abbrev pub and_then : {A B : Type 0} → Run A → (A → Command B) → Run B
and_then (Run.ok a vm) f = f a vm
and_then (Run.err e) f = Run.err e
and_then Run.fault f = Run.fault
and_then Run.stuck f = Run.stuck

infixl 5 ◌>>=◌ ◌>>◌
abbrev pub ◌>>=◌ : {A B : Type 0} → Command A → (A → Command B) → Command B
◌>>=◌ m f vm = and_then (m vm) f

abbrev pub ◌>>◌ : {B : Type 0} → Command (Unit {0}) → Command B → Command B
m >> k = m >>= λ _. k

-- `if (test) vm->error(vm, e);`
abbrev pub error_if : Bool → Error → Command (Unit {0})
error_if true e vm = Run.err e
error_if false e vm = Run.ok tt vm

-- An array access.
abbrev pub at : {A : Type 0} → Option A → Command A
at none vm = Run.fault
at (some a) vm = Run.ok a vm

pub vm_inst_read_size : Command ℕ
vm_inst_read_size vm = elim (read_integer vm.inst) [
  | none ↦ Run.err Error.exceed_instructions
  | some (n, left) ↦ Run.ok n (record vm { inst = left })
]

pub vm_addr_read_integer : Command ℕ
vm_addr_read_integer vm = elim (read_integer vm.addr) [
  | none ↦ Run.err Error.exceed_addresses
  | some (n, left) ↦ Run.ok n (record vm { addr = left })
]

pub vm_addr_read_byte : Command ℕ
vm_addr_read_byte vm = elim vm.addr [
  | [] ↦ Run.err Error.exceed_addresses
  | b ∷ left ↦ Run.ok b (record vm { addr = left })
]

-- The address before it is entered into the cache; the mode is below 256.
pub address_read : ℕ → ℕ → Command ℕ
address_read here mode vm =
    let cache = vm.cache in
    let near = (do
      a ← at (get_elem? cache.near (mode - 2))
      d ← vm_addr_read_integer
      pure (add32 a d)) in
    let same = (do
      let m = mode - 2 - cache.s_near
      b ← vm_addr_read_byte
      let i = m * 256 + b
      error_if (leb (cache.s_same * 256) i) Error.exceed_same_cache
      at (get_elem? cache.same i)) in
    if mode == 0
    then vm_addr_read_integer vm
    else if mode == 1
    then (do d ← vm_addr_read_integer; pure (sub32 here d)) vm
    else if leb 2 mode && ltb (mode - 2) cache.s_near
    then near vm
    else same vm

-- The mode is a `uint8_t`.
pub vm_addr_decode : ℕ → ℕ → Command ℕ
vm_addr_decode here mode = do
  addr ← address_read here (mode % 256)
  λ vm.
      and_then (at (cache_update vm.cache addr) vm)
        λ cache vm'. Run.ok addr (record vm' { cache = cache })

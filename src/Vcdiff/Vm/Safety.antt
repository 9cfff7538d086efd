-- ===== src/Vcdiff/Vm/Safety.antt =====
-- The machine touches no memory outside its blocks: the invariant, and what reads a section.
use diagonal.Base.{
  ℕ, ◌+◌, ◌-◌, ◌*◌, ◌%◌, ◌≤◌, ◌<◌, ◌≡◌, refl, true, false, List, [], ◌∷◌, arith, ltb, leb, ◌==◌,
  ◌&&◌, if◌then◌else◌, length, get_elem?, get_elem?_of_lt, All-get_elem?, All, inl, inr, Bool,
  Option-cases,
}
use diagonal.Base.Word.{add32, u32_mod}
use diagonal.Vcdiff.Integer.{read_integer}
use diagonal.Vcdiff.Integer.Laws.{read_integer-lt, read_integer-All}
use diagonal.Vcdiff.Cache.{Cache, cache_update}
use diagonal.Vcdiff.Cache
use diagonal.Vcdiff.Cache.Laws.{cache_update-IsUpdated}
use diagonal.Vcdiff.CodeTable.{Code}
use diagonal.Vcdiff.Vm.{
  Region, in_source, in_target, Vm, Error, Run, Command, pure, and_then, error_if, at,
  vm_inst_read_size, vm_addr_read_integer, vm_addr_read_byte, address_read, vm_addr_decode,
}

-- The run touches no memory outside its blocks, and if it goes on, `P` holds.
pub data NoFault {A : Type 0} (P : A → Vm → Type 0) : Run A → Type 0 where
  goes_on : {a : A} {vm : Vm} → P a vm → NoFault P (Run.ok a vm)
  stops : {e : Error} → NoFault P (Run.err e)
  loops : NoFault P Run.stuck

module _ {A : Type 0} {P : A → Vm → Type 0} where
  pub NoFault-bind :
      {B : Type 0} {Q : B → Vm → Type 0} {r : Run A} {f : A → Command B}
      → NoFault P r
      → ((a : A) (vm : Vm) → P a vm → NoFault Q (f a vm))
      → NoFault Q (and_then r f)
  NoFault-bind (goes_on p) k = k _ _ p
  NoFault-bind stops k = stops
  NoFault-bind loops k = loops

  pub NoFault-map :
      {Q : A → Vm → Type 0} {r : Run A}
      → NoFault P r
      → ((a : A) (vm : Vm) → P a vm → Q a vm)
      → NoFault Q r
  NoFault-map (goes_on p) k = goes_on (k _ _ p)
  NoFault-map stops k = stops
  NoFault-map loops k = loops

-- `vm->error` under a test: the rest may assume that the test fails.
pub NoFault-error_if :
    {B : Type 0} {Q : B → Vm → Type 0} (test : Bool) (e : Error) (vm : Vm)
    (f : Unit {0} → Command B)
    → (test ≡ false → NoFault Q (f tt vm))
    → NoFault Q (and_then (error_if test e vm) f)
NoFault-error_if true e vm f k = stops
NoFault-error_if false e vm f k = k refl

-- The size of the block that `src` points into.
abbrev pub block_size : Region → List ℕ → List ℕ → ℕ
block_size in_source source target = length source
block_size in_target source target = length target

-- `table` is the code table in use.
pub record IsSafe (table : List Code) (vm : Vm) : Type 0 where
  pub entries_kept : vm.entries ≡ table
  pub inst_bytes : All (λ b. b < 256) vm.inst
  pub target_size : length vm.target ≡ vm.s_target
  pub cache_valid : Cache.IsValid vm.cache
  pub segment : vm.src_s ≤ block_size vm.region vm.source vm.target
  pub data_room : vm.s_target + length vm.data_left < u32_mod
  pub segment_room : vm.s_target + vm.src_s < u32_mod
  pub run_room : vm.s_target + 256 ≤ u32_mod

-- What a command that only reads a section leaves alone.
pub record Reads (table : List Code) (vm vm' : Vm) : Type 0 where
  pub safe : IsSafe table vm'
  pub same_target : vm'.s_target ≡ vm.s_target
  pub same_cache : vm'.cache ≡ vm.cache

-- The command returns a `uint32_t`.
abbrev pub ReadsWord : List Code → Vm → ℕ → Vm → Type 0
ReadsWord table vm a vm' = Reads table vm vm' × (a < u32_mod)

pub NoFault-if :
    {A : Type 0} {P : A → Vm → Type 0} (b : Bool) {x y : Run A}
    → (b ≡ true → NoFault P x)
    → (b ≡ false → NoFault P y)
    → NoFault P (if b then x else y)
NoFault-if true t f = t refl
NoFault-if false t f = f refl

module _ {table : List Code} (vm : Vm) (safe : IsSafe table vm) where
  Reads-sections :
      (inst addr : List ℕ)
      → All (λ b. b < 256) inst
      → Reads table vm (record vm { inst = inst; addr = addr })
  Reads-sections inst addr bytes = record {
    safe = record {
      entries_kept = safe.entries_kept;
      inst_bytes = bytes;
      target_size = safe.target_size;
      cache_valid = safe.cache_valid;
      segment = safe.segment;
      data_room = safe.data_room;
      segment_room = safe.segment_room;
      run_room = safe.run_room;
    };
    same_target = refl;
    same_cache = refl;
  }

  addr_read_integer-NoFault : NoFault (ReadsWord table vm) (vm_addr_read_integer vm)
  unfolding vm_addr_read_integer
  addr_read_integer-NoFault = elim (Option-cases (read_integer vm.addr)) [
    | inl e ↦ rw (e, vm_addr_read_integer) stops
    | inr ((v, rest), e) ↦
        rw (e, vm_addr_read_integer)
          (goes_on
            (Reads-sections vm.inst rest safe.inst_bytes, (read_integer-lt vm.addr v rest e).0))
  ]

  pub inst_read_size-NoFault : NoFault (ReadsWord table vm) (vm_inst_read_size vm)
  unfolding vm_inst_read_size
  inst_read_size-NoFault = elim (Option-cases (read_integer vm.inst)) [
    | inl e ↦ rw (e, vm_inst_read_size) stops
    | inr ((v, rest), e) ↦
        rw (e, vm_inst_read_size)
          (goes_on (
            Reads-sections rest vm.addr (read_integer-All _ vm.inst v rest safe.inst_bytes e),
            (read_integer-lt vm.inst v rest e).0,
          ))
  ]

  addr_read_byte-NoFault : NoFault (λ b. Reads table vm) (vm_addr_read_byte vm)
  unfolding vm_addr_read_byte
  addr_read_byte-NoFault = elim vm.addr as (λ l. NoFault (λ b. Reads table vm) (read_byte_from l)) [
    | [] ↦ stops
    | b ∷ left ↦ goes_on (Reads-sections vm.inst left safe.inst_bytes)
  ]
    where
      read_byte_from : List ℕ → Run ℕ
      read_byte_from l = elim l [
        | [] ↦ Run.err Error.exceed_addresses
        | b ∷ left ↦ Run.ok b (record vm { addr = left })
      ]

-- An array access inside the array.
at-NoFault :
    {P : ℕ → Type 0} {table : List Code} {vm' : Vm} (xs : List ℕ) (i : ℕ) (vm : Vm)
    → i < length xs
    → All P xs
    → Reads table vm' vm
    → NoFault (λ a w. Reads table vm' w × P a) (at (get_elem? xs i) vm)
at-NoFault {P} xs i vm h all r =
    let (a, e) = get_elem?_of_lt xs i h in rw e (goes_on (r, All-get_elem? P xs i a all e))

module _ {table : List Code} (vm : Vm) (safe : IsSafe table vm) where
  near-NoFault :
      (m : ℕ)
      → m < vm.cache.s_near
      → NoFault (ReadsWord table vm) (
          and_then
            (at (get_elem? vm.cache.near m) vm)
            (λ a w. and_then (vm_addr_read_integer w) λ d. pure (add32 a d)))
  near-NoFault m h =
      let (a, e) = get_elem?_of_lt vm.cache.near m (omega (arith, safe.cache_valid.near_size)) in
      rw e (NoFault-bind (addr_read_integer-NoFault vm safe) λ d w r. goes_on (r.0, omega arith))

  same-NoFault :
      (m : ℕ)
      → NoFault (ReadsWord table vm) (
          and_then (vm_addr_read_byte vm) (λ b w.
            and_then
              (error_if (leb (vm.cache.s_same * 256) (m * 256 + b)) Error.exceed_same_cache w)
              (λ _. at (get_elem? vm.cache.same (m * 256 + b)))))
  same-NoFault m = NoFault-bind (addr_read_byte-NoFault vm safe) λ b w r.
      NoFault-error_if (leb (vm.cache.s_same * 256) (m * 256 + b)) _ w _ λ within.
        at-NoFault {P = λ a. a < u32_mod} vm.cache.same (m * 256 + b) w
          (ground (arith, safe.cache_valid.same_size)) safe.cache_valid.same_words r

  address_read-NoFault : (here mode : ℕ) → NoFault (ReadsWord table vm) (address_read here mode vm)
  unfolding address_read
  address_read-NoFault here mode =
      NoFault-if (mode == 0) (λ _. addr_read_integer-NoFault vm safe)
        λ _.
          NoFault-if (mode == 1)
            (λ _.
              NoFault-bind (addr_read_integer-NoFault vm safe) λ d w r. goes_on (r.0, omega arith))
            λ _.
              NoFault-if (leb 2 mode && ltb (mode - 2) vm.cache.s_near)
                (λ e. near-NoFault (mode - 2) (ground arith))
                λ e. same-NoFault (mode - 2 - vm.cache.s_near)

  pub addr_decode-NoFault :
      (here mode : ℕ)
      → NoFault
          (λ a vm'. IsSafe table vm' × (vm'.s_target ≡ vm.s_target))
          (vm_addr_decode here mode vm)
  unfolding vm_addr_decode
  addr_decode-NoFault here mode = NoFault-bind (address_read-NoFault here (mode % 256)) λ a w r.
      let (cache, e, valid, updated) = cache_update-IsUpdated w.cache a r.1 r.0.safe.cache_valid in
      rw e (
        goes_on (
          record {
            entries_kept = r.0.safe.entries_kept;
            inst_bytes = r.0.safe.inst_bytes;
            target_size = r.0.safe.target_size;
            cache_valid = valid;
            segment = r.0.safe.segment;
            data_room = r.0.safe.data_room;
            segment_room = r.0.safe.segment_room;
            run_room = r.0.safe.run_room;
          },
          r.0.same_target,
        ))

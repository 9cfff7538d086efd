-- ===== src/Vcdiff/Vm/Instruction/Safety.antt =====
-- One instruction touches no memory outside the blocks, and keeps the invariant.
use diagonal.Base.{
  ℕ, zero, suc, ◌+◌, ◌%◌, ◌≤◌, ◌<◌, ◌≡◌, refl, ◌∙◌, true, false, List, [], ◌∷◌, arith, ltb, leb,
  ltb→le, length, take, drop, length-set, length-take, length-drop, inl, inr, Bool-cases, ◌==◌,
  ==_iff,
}
use diagonal.Base.Slices.{slice, length-overwrite, length-slice}
use diagonal.Base.Word.{add32, u32_mod}
use diagonal.Vcdiff.CodeTable.{noop, add, run, copy, Code}
use diagonal.Vcdiff.Vm.{Region, in_source, in_target, Vm, Error, Run, and_then}
use diagonal.Vcdiff.Vm.Safety.{
  NoFault, goes_on, stops, loops, NoFault-bind, NoFault-error_if, NoFault-if, IsSafe, block_size,
  addr_decode-NoFault,
}
use diagonal.Vcdiff.Vm.Instruction.{
  block, write_target, read_source, read_data, decode_add, run_loop, decode_run, decode_copy,
  vm_decode,
}

block_size-target :
    (r : Region) (source t t' : List ℕ)
    → length t ≡ length t'
    → block_size r source t ≡ block_size r source t'
block_size-target in_source source t t' e = refl
block_size-target in_target source t t' e = e

length-block : (r : Region) (s t : List ℕ) → length (block r s t) ≡ block_size r s t
length-block in_source s t = refl
length-block in_target s t = refl

-- A new target of the same size, and a shorter data section.
retarget :
    {table : List Code} (vm : Vm) (t left : List ℕ)
    → IsSafe table vm
    → length t ≡ length vm.target
    → length left ≤ length vm.data_left
    → IsSafe table (record vm { target = t; data_left = left })
retarget vm t left safe e h = record {
  entries_kept = safe.entries_kept;
  inst_bytes = safe.inst_bytes;
  target_size = e ∙ safe.target_size;
  cache_valid = safe.cache_valid;
  segment = omega (arith, safe.segment, block_size-target vm.region vm.source t vm.target e);
  data_room = omega (arith, safe.data_room);
  segment_room = safe.segment_room;
  run_room = safe.run_room;
}

-- The machine stays safe, and so does its target.
abbrev pub Keeps : List Code → ℕ → Vm → Type 0
Keeps table s_target vm = IsSafe table vm × (vm.s_target ≡ s_target)

write_target-NoFault :
    {table : List Code} (vm : Vm) (here : ℕ) (bytes : List ℕ)
    → IsSafe table vm
    → here + length bytes ≤ vm.s_target
    → NoFault (λ _. Keeps table vm.s_target) (write_target here bytes vm)
unfolding write_target
write_target-NoFault vm here bytes safe h =
    let room : here + length bytes ≤ length vm.target = omega (arith, safe.target_size) in
    let fits : leb (here + length bytes) (length vm.target) ≡ true = ground arith in
    rw fits (
      goes_on (
        retarget vm _ vm.data_left safe (length-overwrite vm.target here bytes room) (omega arith),
        refl,
      ))

-- The instruction ends inside the target.
abbrev pub EndsWithin : List Code → ℕ → ℕ → Vm → Type 0
EndsWithin table s_target here vm = IsSafe table vm × (vm.s_target ≡ s_target) × (here ≤ s_target)

module _ {table : List Code} (vm : Vm) (safe : IsSafe table vm) (here size : ℕ)
    (within : here ≤ vm.s_target) where
  decode_add-NoFault : NoFault (EndsWithin table vm.s_target) (decode_add here size vm)
  unfolding decode_add read_data
  decode_add-NoFault = NoFault-error_if (ltb vm.s_target (add32 here size)) _ vm _ λ fits.
      NoFault-error_if (ltb (length vm.data_left) size) _ vm _ λ held.
        let room : here + size ≤ vm.s_target =
          omega (arith, ltb→le _ _ fits, ltb→le _ _ held, safe.data_room) in
        let whole : leb size (length vm.data_left) ≡ true = ground (arith, ltb→le _ _ held) in
        rw whole (
          NoFault-bind
            (write_target-NoFault vm here (take size vm.data_left) safe
              (omega (arith, length-take size vm.data_left)))
            λ _ w k. goes_on (
              retarget w w.target (drop size w.data_left) k.0 refl
                  (omega (arith, length-drop size w.data_left)),
              k.1,
              omega arith,
            ))

  run_loop-NoFault :
      (rounds b i : ℕ) (w : Vm)
      → Keeps table vm.s_target w
      → here + size ≤ vm.s_target
      → NoFault (λ _. Keeps table vm.s_target) (run_loop rounds here size b i w)
  unfolding run_loop
  run_loop-NoFault zero b i w k h = loops
  run_loop-NoFault (suc rounds) b i w k h =
      NoFault-if (ltb i size)
        (λ more.
          NoFault-if (ltb (add32 here i) (length w.target))
            (λ _.
              run_loop-NoFault rounds b ((i + 1) % 256) _
                (
                  retarget w _ w.data_left k.0 (length-set w.target (add32 here i) b) (omega arith),
                  k.1,
                )
                h)
            (λ out. absurd (outside more out)))
        (λ _. goes_on k)
    where
      outside : ltb i size ≡ true → ltb (add32 here i) (length w.target) ≡ false → ⊥
      outside more out = ground (arith, k.0.target_size, k.1, k.0.run_room)

  decode_run-NoFault :
      here + size < u32_mod → NoFault (EndsWithin table vm.s_target) (decode_run here size vm)
  unfolding decode_run
  decode_run-NoFault fits =
      NoFault-error_if (ltb vm.s_target (add32 here size)) _ vm _
        λ ok_size. from vm.data_left (omega arith) (omega (arith, ltb→le _ _ ok_size))
    where
      from :
          (l : List ℕ)
          → length l ≤ length vm.data_left
          → here + size ≤ vm.s_target
          → NoFault (EndsWithin table vm.s_target) (elim l [
            | [] ↦ Run.err Error.exceed_data
            | b ∷ left ↦
                and_then
                  (run_loop 256 here size b 0 (record vm { data_left = left }))
                  λ _ w. Run.ok (add32 here size) w
          ])
      from [] h room = stops
      from (b ∷ left) h room =
          NoFault-bind
            (run_loop-NoFault 256 b 0 (record vm { data_left = left })
              (retarget vm vm.target left safe refl (omega arith), refl) room)
            λ _ w k. goes_on (k.0, k.1, omega arith)

  decode_copy-NoFault :
      (mode : ℕ) → NoFault (EndsWithin table vm.s_target) (decode_copy here size mode vm)
  unfolding decode_copy read_source
  decode_copy-NoFault mode = NoFault-error_if (ltb vm.s_target (add32 here size)) _ vm _ λ fits.
      NoFault-bind (addr_decode-NoFault vm safe here mode) λ addr w k.
        NoFault-error_if (ltb w.src_s (w.src + addr + size)) _ w _ λ held.
          let from = block w.region w.source w.target in
          let ends : w.src + addr + size ≤ length from =
            omega (arith, ltb→le _ _ held, k.0.segment, length-block w.region w.source w.target) in
          let room : here + size ≤ w.s_target =
            omega (arith, ltb→le _ _ fits, ltb→le _ _ held, k.0.segment_room, k.1) in
          let inside : leb (w.src + addr + size) (length from) ≡ true = ground arith in
          rw inside (
            NoFault-bind
              (write_target-NoFault w here (slice from (w.src + addr) size) k.0
                (omega (arith, length-slice from (w.src + addr) size ends)))
              λ _ u l. goes_on (l.0, l.1 ∙ k.1, omega (arith, k.1)))

  -- In a safe machine with `here` in the target, an instruction that is no RUN, or a RUN whose end
  -- `here + size` fits 32 bits, does not fault: it stays in its blocks and in the cache, keeps the invariant, and
  -- leaves `here` in the target.
  pub vm_decode-NoFault :
      (inst mode : ℕ)
      → (inst ≡ run → here + size < u32_mod)
      → NoFault (EndsWithin table vm.s_target) (vm_decode here inst size mode vm)
  unfolding vm_decode
  vm_decode-NoFault inst mode fits = elim (Bool-cases (inst == noop)) [
    | inl e ↦ rw e (goes_on (safe, refl, within))
    | inr e0 ↦ rw e0 (elim (Bool-cases (inst == add)) [
      | inl e ↦ rw e decode_add-NoFault
      | inr e1 ↦ rw e1 (elim (Bool-cases (inst == run)) [
        | inl e ↦ rw e (decode_run-NoFault (fits ((==_iff inst run).0 e)))
        | inr e2 ↦ rw e2 (elim (Bool-cases (inst == copy)) [
          | inl e ↦ rw e (decode_copy-NoFault mode)
          | inr e3 ↦ rw e3 stops
        ])
      ])
    ])
  ]

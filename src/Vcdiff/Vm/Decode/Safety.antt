-- ===== src/Vcdiff/Vm/Decode/Safety.antt =====
-- Whole windows touch no memory outside the blocks.
use diagonal.Base.{
  ℕ, zero, suc, ◌+◌, ◌^◌, sym, subst, take, length-replicate, ◌≤◌, ◌<◌, ◌≡◌, ◌≢◌, refl, ◌∙◌, some,
  List, [], ◌∷◌, arith, ltb, ltb→le, ◌==◌, ==_iff, length, get_elem?, get_elem?_of_lt, All,
  All-get_elem?, ◌⊎◌, inl, inr, Bool-cases,
}
use diagonal.Base.Word.{add32, u32_mod}
use diagonal.Vcdiff.Cache.Laws.{cache_init-IsValid}
use diagonal.Vcdiff.{Vcdiff, Window, sourcep, targetp}
use diagonal.Vcdiff.CodeTable.{noop, run, Code, CodeTable}
use diagonal.Vcdiff.Vm.{Region, in_source, in_target, Vm, Run}
use diagonal.Vcdiff.Vm.Safety.{
  NoFault, goes_on, stops, loops, NoFault-bind, NoFault-map, NoFault-error_if, NoFault-if, IsSafe,
  Reads, inst_read_size-NoFault, block_size,
}
use diagonal.Vcdiff.Vm.Instruction.Safety.{EndsWithin, vm_decode-NoFault}
use diagonal.Vcdiff.Vm.Decode.{
  size_of, check_here, execute, instructions_loop, window_open, window_decode, windows_decode,
  target_size, vm_start, Decoded, finish, decode_with,
}

-- A RUN has a size of its own, a byte: it does not read one from the stream.
pub record IsSized (inst size : ℕ) : Type 0 where
  pub own_size : inst ≡ run → size ≢ 0
  pub is_byte : size < 256

pub record IsSizedCode (c : Code) : Type 0 where
  pub first : IsSized c.inst1 c.size1
  pub second : IsSized c.inst2 c.size2

-- The 256 entries are such.
pub record IsSizedTable (entries : List Code) : Type 0 where
  pub full : length entries ≡ 256
  pub sized : All IsSizedCode entries

List-cases {ℓ} : {A : Type ℓ} (xs : List A) → (xs ≡ []) ⊎ ((x : A) × (ys : List A) × (xs ≡ x ∷ ys))
List-cases [] = inl refl
List-cases (x ∷ xs) = inr (x, xs, refl)

module _ {table : List Code} where
  size_of-NoFault :
      (vm : Vm) (inst size : ℕ)
      → IsSafe table vm
      → IsSized inst size
      → NoFault (λ n w. Reads table vm w × (inst ≡ run → n < 256)) (size_of inst size vm)
  unfolding size_of
  size_of-NoFault vm inst size safe s = elim (Bool-cases (inst == noop)) [
    | inl e ↦ rw e (goes_on (unread, λ _. s.is_byte))
    | inr e0 ↦ rw e0 (elim (Bool-cases (size == 0)) [
      | inl e ↦ rw e (
          NoFault-map (inst_read_size-NoFault vm safe)
            λ n w r. (r.0, λ is_run. absurd (s.own_size is_run ((==_iff size 0).0 e))))
      | inr e ↦ rw e (goes_on (unread, λ _. s.is_byte))
    ])
  ]
    where
      unread : Reads table vm vm
      unread = record { safe = safe; same_target = refl; same_cache = refl }

  module _ (t : IsSizedTable table) where
    execute-NoFault :
        (vm : Vm) (idx here : ℕ)
        → IsSafe table vm
        → here ≤ vm.s_target
        → idx < 256
        → NoFault (EndsWithin table vm.s_target) (execute idx here vm)
    unfolding execute check_here
    execute-NoFault vm idx here safe within byte =
        let (c, e) =
          get_elem?_of_lt vm.entries idx (rw safe.entries_kept (omega (arith, t.full))) in
        let e' : get_elem? table idx ≡ some c = rw (safe.entries_kept) at e in
        let ok_code = All-get_elem? IsSizedCode table idx c t.sized e' in
        rw e (
          NoFault-bind (size_of-NoFault vm c.inst1 c.size1 safe ok_code.first) λ size1 v1 r1.
            NoFault-bind (size_of-NoFault v1 c.inst2 c.size2 r1.0.safe ok_code.second)
              λ size2 v2 r2.
                NoFault-bind
                  (vm_decode-NoFault v2 r2.0.safe here size1
                    (omega (arith, r1.0.same_target, r2.0.same_target)) c.inst1 c.mode1
                    (λ is_run.
                      omega (
                        arith,
                        r1.1 is_run,
                        r2.0.safe.run_room,
                        r1.0.same_target,
                        r2.0.same_target,
                      )))
                  λ here1 v3 k3. NoFault-error_if (ltb v3.s_target here1) _ v3 _ λ fits1.
                    NoFault-bind
                      (vm_decode-NoFault v3 k3.0 here1 size2 (ltb→le _ _ fits1) c.inst2 c.mode2
                        (λ is_run. omega (arith, r2.1 is_run, k3.0.run_room, ltb→le _ _ fits1)))
                      λ here2 v4 k4. NoFault-error_if (ltb v4.s_target here2) _ v4 _ λ fits2.
                        goes_on (
                          k4.0,
                          omega (arith, k4.1, k3.1, r2.0.same_target, r1.0.same_target),
                          omega (arith, k4.2, k3.1, r2.0.same_target, r1.0.same_target),
                        ))

    drop_inst :
        (vm : Vm) (b : ℕ) (left : List ℕ)
        → vm.inst ≡ b ∷ left
        → IsSafe table vm
        → (b < 256) × IsSafe table (record vm { inst = left })
    drop_inst vm b left e safe =
        let bytes : All (λ x. x < 256) (b ∷ left) = rw e at safe.inst_bytes in
        (
          bytes.0,
          record {
            entries_kept = safe.entries_kept;
            inst_bytes = bytes.1;
            target_size = safe.target_size;
            cache_valid = safe.cache_valid;
            segment = safe.segment;
            data_room = safe.data_room;
            segment_room = safe.segment_room;
            run_room = safe.run_room;
          },
        )

    instructions_loop-NoFault :
        (fuel here : ℕ) (vm : Vm)
        → IsSafe table vm
        → here ≤ vm.s_target
        → NoFault (EndsWithin table vm.s_target) (instructions_loop fuel here vm)
    unfolding instructions_loop
    instructions_loop-NoFault zero here vm safe h = elim (List-cases vm.inst) [
      | inl e ↦ rw (e, instructions_loop) (goes_on (safe, refl, h))
      | inr (b, left, e) ↦ rw (e, instructions_loop) loops
    ]
    instructions_loop-NoFault (suc fuel) here vm safe h = elim (List-cases vm.inst) [
      | inl e ↦ rw (e, instructions_loop) (goes_on (safe, refl, h))
      | inr (b, left, e) ↦
          let (byte, safe') = drop_inst vm b left e safe in
          rw (e, instructions_loop)
            (NoFault-bind (execute-NoFault (record vm { inst = left }) b here safe' h byte)
              λ here' w k.
                NoFault-map (instructions_loop-NoFault fuel here' w k.0 (omega (arith, k.2, k.1)))
                  λ here'' u l. (l.0, l.1 ∙ k.1, omega (arith, l.2, k.1)))
    ]

-- The sections of a window next to a target of `s_target` bytes: together they fit 32 bits.
pub record Fits (s_target : ℕ) (w : Window) : Type 0 where
  pub inst_bytes : All (λ b. b < 256) w.delta.inst
  pub data_room : s_target + length w.delta.inst_data < u32_mod
  pub segment_room : s_target + (w.position_source_segment + w.length_source_segment) < u32_mod
  pub window_room : s_target + w.delta.s_window < u32_mod

finish-ne-fault : {P : ℕ → Vm → Type 0} {r : Run ℕ} → NoFault P r → finish r ≢ Decoded.fault
finish-ne-fault (goes_on p) e = cc
finish-ne-fault stops e = cc
finish-ne-fault loops e = cc

module _ {table : List Code} (t : IsSizedTable table) where
  window_open-NoFault :
      (vm : Vm) (here : ℕ) (w : Window)
      → IsSafe table vm
      → here ≤ vm.s_target
      → vm.s_target < 2 ^ 31
      → Fits vm.s_target w
      → NoFault (λ _ vm'. IsSafe table vm' × (vm'.s_target ≡ vm.s_target)) (window_open here w vm)
  unfolding window_open
  window_open-NoFault vm here w safe within small f =
      NoFault-if (sourcep w.indicator)
        (λ _. NoFault-error_if (ltb (length vm.source) (add32 pos len)) _ vm _ λ fits. goes_on (
          opened in_source pos (pos + len) (omega (arith, ltb→le _ _ fits, f.segment_room))
              f.segment_room,
          refl,
        ))
        λ _.
          NoFault-if (targetp w.indicator)
            (λ _. NoFault-error_if (ltb vm.s_target (add32 pos len)) _ vm _ λ fits. goes_on (
              opened in_target pos (pos + len)
                  (omega (arith, ltb→le _ _ fits, f.segment_room, safe.target_size)) f.segment_room,
              refl,
            ))
            λ _. NoFault-error_if (ltb vm.s_target (add32 here w.delta.s_window)) _ vm _ λ fits.
              goes_on (
                opened in_target here (here + w.delta.s_window)
                    (omega (arith, ltb→le _ _ fits, f.window_room, safe.target_size))
                    (omega (arith, ltb→le _ _ fits, f.window_room)),
                refl,
              )
    where
      pos : ℕ
      pos = w.position_source_segment

      len : ℕ
      len = w.length_source_segment

      opened :
          (r : Region) (src src_s : ℕ)
          → src_s ≤ block_size r vm.source vm.target
          → vm.s_target + src_s < u32_mod
          → IsSafe table (record vm {
            region = r;
            src = src;
            src_s = src_s;
            data_left = w.delta.inst_data;
            inst = w.delta.inst;
            addr = w.delta.addr;
          })
      opened r src src_s segment room = record {
        entries_kept = safe.entries_kept;
        inst_bytes = f.inst_bytes;
        target_size = safe.target_size;
        cache_valid = safe.cache_valid;
        segment = segment;
        data_room = f.data_room;
        segment_room = room;
        run_room = safe.run_room;
      }

  window_decode-NoFault :
      (s here : ℕ) (vm : Vm) (w : Window)
      → IsSafe table vm
      → here ≤ s
      → vm.s_target ≡ s
      → s < 2 ^ 31
      → Fits s w
      → NoFault (EndsWithin table s) (window_decode here w vm)
  unfolding window_decode
  window_decode-NoFault s here vm w safe within e small f =
      NoFault-bind
        (window_open-NoFault vm here w safe (omega arith) (omega arith)
          (subst (λ k. Fits k w) (sym e) f))
        λ _ v k.
          NoFault-map
            (instructions_loop-NoFault t (length w.delta.inst) here v k.0 (omega (arith, k.1)))
            λ here' u l. (l.0, omega (arith, l.1, k.1), omega (arith, l.2, k.1))

  windows_decode-NoFault :
      (s : ℕ) (ws : List Window) (here : ℕ) (vm : Vm)
      → IsSafe table vm
      → here ≤ s
      → vm.s_target ≡ s
      → s < 2 ^ 31
      → All (Fits s) ws
      → NoFault (EndsWithin table s) (windows_decode ws here vm)
  unfolding windows_decode
  windows_decode-NoFault s [] here vm safe within e small fs = goes_on (safe, e, within)
  windows_decode-NoFault s (w ∷ ws) here vm safe within e small (f, fs) =
      NoFault-bind (window_decode-NoFault s here vm w safe within e small f)
        λ here' v k. windows_decode-NoFault s ws here' v k.0 k.2 k.1 small fs

-- A stream is decoded, rejected or left in an endless RUN, and never touches memory outside the
-- source, the target, the sections and the cache: for every source and every content of the sections, with a
-- code table whose RUNs have sizes of their own, if the target is smaller than 2 ^ 31 bytes and the
-- sections and segments fit beside it in 32 bits.
pub decode_with-ne-fault :
    (source : List ℕ) (table : CodeTable) (v : Vcdiff)
    → IsSizedTable table.entries
    → table.s_near < 256
    → table.s_same < 256
    → target_size (take v.num_windows v.windows) 0 < 2 ^ 31
    → All (Fits (target_size (take v.num_windows v.windows) 0)) (take v.num_windows v.windows)
    → decode_with source table v ≢ Decoded.fault
unfolding decode_with vm_start
decode_with-ne-fault source table v t near same small fs =
    let ws = take v.num_windows v.windows in
    finish-ne-fault (
      windows_decode-NoFault t (target_size ws 0) ws 0 (vm_start source table ws) start
        (omega arith) refl small fs)
  where
    start : IsSafe table.entries (vm_start source table (take v.num_windows v.windows))
    start = record {
      entries_kept = refl;
      inst_bytes = tt;
      target_size = length-replicate (target_size (take v.num_windows v.windows) 0) 0;
      cache_valid = cache_init-IsValid table.s_near table.s_same near same;
      segment = omega arith;
      data_room = omega arith;
      segment_room = omega arith;
      run_room = omega arith;
    }

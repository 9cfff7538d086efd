-- ===== src/Vcdiff/Vm/Decode/Overflow.antt =====
-- The guard of a source segment adds in 32 bits.
use diagonal.Base.{ℕ, ◌+◌, ◌≤◌, ◌<◌, ◌≡◌, refl, true, false, arith, ltb, le→ltb, length}
use diagonal.Base.Word.{add32, u32_mod}
use diagonal.Vcdiff.{Window, sourcep}
use diagonal.Vcdiff.Vm.{in_source, Vm, Run}
use diagonal.Vcdiff.Vm.Decode.{window_open}

-- A source segment whose true end lies past 2 ^ 32, and so past the end of a source of less than
-- 2 ^ 32 bytes, is opened all the same if its end modulo 2 ^ 32 lies in the source: the machine goes
-- on with a segment that ends outside its block.
pub window_open-past_source :
    (vm : Vm) (here : ℕ) (w : Window)
    → sourcep w.indicator ≡ true
    → length vm.source < u32_mod
    → u32_mod ≤ w.position_source_segment + w.length_source_segment
    → add32 w.position_source_segment w.length_source_segment ≤ length vm.source
    → (vm' : Vm) × (window_open here w vm ≡ Run.ok tt vm')
      × (vm'.source ≡ vm.source)
      × (length vm'.source < vm'.src_s)
unfolding window_open
window_open-past_source vm here w source word past wraps =
    let pos = w.position_source_segment in
    let len = w.length_source_segment in
    let passes : ltb (length vm.source) (add32 pos len) ≡ false = le→ltb _ _ wraps in
    let opened = record vm {
      region = in_source;
      src = pos;
      src_s = pos + len;
      data_left = w.delta.inst_data;
      inst = w.delta.inst;
      addr = w.delta.addr;
    } in
    (opened, rw (source, passes), refl, omega arith)

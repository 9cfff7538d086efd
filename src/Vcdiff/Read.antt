-- ===== src/Vcdiff/Read.antt =====
-- The parser of VCDIFF streams: `diag_vcdiff_read` of src/vcdiff.c and its parts, over any port.
-- `fuel` bounds the rounds of each loop. NULL is any result other than `ok`.
pub mod Layout
pub mod RoundTrip
use diagonal.Base.{
  ℕ, zero, suc, ◌-◌, ◌%◌, not, ◌&&◌, ◌||◌, Bool, Option, none, some, List, [], ◌∷◌, ◌++◌, bit_and,
  ◌==◌, if◌then◌else◌, length,
}
use diagonal.Base.Word.{u32_mod}
use diagonal.Port.{Status, Reader}
use diagonal.Port.Input.{Read, Input, pure, ◌>>=◌, ◌>>◌, guard, and_then, byte, bytes}
use diagonal.Vcdiff.Integer.{integer_read}
use diagonal.Vcdiff.{Delta, Window, Vcdiff, sourcep, targetp, decompressp, codetablep}

module _ {S : Type 0} (port : Reader S) (fuel : ℕ) where
  pub code_table_data_read : Input S (List ℕ)
  code_table_data_read = do n ← integer_read port fuel; bytes port n

  pub delta_read : Input S Delta
  delta_read = do
    size ← integer_read port fuel
    s_window ← integer_read port fuel
    indicator ← byte port
    length_data ← integer_read port fuel
    length_inst ← integer_read port fuel
    length_addr ← integer_read port fuel
    inst_data ← bytes port length_data
    inst ← bytes port length_inst
    addr ← bytes port length_addr
    pure (record {
      length = size;
      s_window = s_window;
      indicator = indicator;
      inst_data = inst_data;
      inst = inst;
      addr = addr;
    })

  -- the length and the position of the source segment
  segment_read : ℕ → Input S (ℕ × ℕ)
  segment_read indicator =
      if sourcep indicator || targetp indicator
      then (do len ← integer_read port fuel; pos ← integer_read port fuel; pure (len, pos))
      else pure (0, 0)

  -- The body of the loop over windows; `b` is the Win_Indicator byte.
  pub window_read : ℕ → ℕ → Input S Window
  unfolding segment_read
  window_read compatibility b = do
    guard (compatibility == 0 || (b == 0 || bit_and b (b - 1) == 0))
    (len, pos) ← segment_read b
    delta ← delta_read
    pure (record {
      indicator = b;
      length_source_segment = len;
      position_source_segment = pos;
      delta = delta;
    })

  -- The deque `ws` keeps the windows in the order of the stream.
  pub windows_loop : ℕ → ℕ → List Window → Input S (List Window)
  windows_loop compatibility zero ws s = Read.stuck
  windows_loop compatibility (suc rounds) ws s =
      let (r, b, s') = port.read_byte s in
      elim r [
        | Status.done ↦
            and_then (window_read compatibility b s')
              λ w. windows_loop compatibility rounds (ws ++ (w ∷ []))
        | Status.short ↦ Read.ok ws s'
        | Status.fail ↦ Read.error
      ]

  expect : ℕ → Input S (Unit {0})
  expect wanted = do b ← byte port; guard (b == wanted)

  -- What stands before the windows; the fields that they fill are empty.
  header_read : ℕ → Input S Vcdiff
  unfolding expect
  header_read compatibility = do
    expect 0xd6
    expect 0xc3
    expect 0xc4
    version ← byte port
    guard (compatibility == 0 || version == 0)
    indicator ← byte port
    compressor_id ← (if decompressp indicator then (do b ← byte port; pure (some b)) else pure none)
    code_table_data ←
        (if codetablep indicator then (do d ← code_table_data_read; pure (some d)) else pure none)
    pure (record {
      version = version;
      indicator = indicator;
      compressor_id = compressor_id;
      code_table_data = code_table_data;
      num_windows = 0;
      windows = [];
    })

  pub diag_vcdiff_read : ℕ → Input S Vcdiff
  unfolding header_read
  diag_vcdiff_read compatibility = do
    vcdiff ← header_read compatibility
    windows ← windows_loop compatibility fuel []
    pure (record vcdiff { num_windows = length windows % u32_mod; windows = windows })

-- ===== src/Vcdiff/Examples.antt =====
-- Runs and instances for the stream format: integers, code tables, whole streams.
use diagonal.Base.{
  ℕ, ◌<◌, ◌^◌, ◌≡◌, refl, none, some, List, [], ◌∷◌, ◌++◌, arith, length, replicate,
  length-replicate,
}
use diagonal.Port.Input.{Read}
use diagonal.Port.Memory.{MemoryPort, new_bm, memory_reader}
use diagonal.Port.Memory.Laws.{Holds, memory_reader-IsReader}
use diagonal.Vcdiff.{Window, Vcdiff}
use diagonal.Vcdiff.Integer.{read_integer, read_integer_loop}
use diagonal.Vcdiff.Integer.Laws.{encode_integer, read_integer-encode_integer}
use diagonal.Vcdiff.CodeTable.{
  Code, add, copy, code, code_table_entries_to_string, code_table_entries_from_string,
}
use diagonal.Vcdiff.CodeTable.Laws.{code_table_entries_from_string-to_string}
use diagonal.Vcdiff.Read.{diag_vcdiff_read}
use diagonal.Vcdiff.Read.Layout.{
  encode_vcdiff, encode_header, encode_window, encode_segment, encode_delta, IsStream, IsWindow,
}
use diagonal.Vcdiff.Read.RoundTrip.{diag_vcdiff_read-encode_vcdiff}

read_integer_300 : read_integer (0x82 ∷ 0x2c ∷ 7 ∷ []) ≡ some (300, 7 ∷ [])
unfolding read_integer read_integer_loop
read_integer_300 = refl

read_integer-encode_integer_example :
    read_integer (encode_integer 300 ++ (7 ∷ [])) ≡ some (300, 7 ∷ [])
read_integer-encode_integer_example = read_integer-encode_integer 300 (7 ∷ []) (omega arith)

-- A fresh port over a block.
new_bm-Holds : (bytes : List ℕ) → length bytes < 2 ^ 32 → Holds (new_bm bytes) bytes
unfolding new_bm
new_bm-Holds bytes h = record {
  valid = record { size_fits = h; i_within = omega arith; o_within = omega arith };
  left = refl;
}

abbrev entries : List Code
entries = replicate 256 (code copy 4 0 add 1 0)

code_table_entries_from_string-to_string_example :
    code_table_entries_from_string (code_table_entries_to_string entries) ≡ entries
code_table_entries_from_string-to_string_example =
    code_table_entries_from_string-to_string entries (length-replicate 256 (code copy 4 0 add 1 0))

-- One window over a source segment, with one byte in each section.
abbrev window : Window
window = record {
  indicator = 1;
  length_source_segment = 200;
  position_source_segment = 3;
  delta = record {
    length = 8;
    s_window = 4;
    indicator = 0;
    inst_data = 65 ∷ [];
    inst = 20 ∷ [];
    addr = 0 ∷ [];
  };
}

abbrev stream : Vcdiff
stream = record {
  version = 0;
  indicator = 1;
  compressor_id = some 2;
  code_table_data = none;
  num_windows = 2;
  windows = window ∷ window ∷ [];
}

window-IsWindow : IsWindow 1 window
window-IsWindow = record {
  one_bit = refl;
  length_fits = omega arith;
  position_fits = omega arith;
  no_length = λ e. cc;
  no_position = λ e. cc;
  delta_fits = omega arith;
}

stream-IsStream : IsStream 1 stream
stream-IsStream = record {
  version_known = refl;
  compressor = refl;
  table = refl;
  counted = refl;
  count_fits = omega arith;
  windows_fit = (window-IsWindow, (window-IsWindow, tt));
}

length-stream : length (encode_vcdiff stream) ≡ 32
unfolding encode_vcdiff encode_header encode_window encode_segment encode_delta encode_integer
length-stream = refl

diag_vcdiff_read-encode_vcdiff_example :
    (s' : MemoryPort) × (diag_vcdiff_read memory_reader 100 1 (new_bm (encode_vcdiff stream))
      ≡ Read.ok stream s')
diag_vcdiff_read-encode_vcdiff_example =
    diag_vcdiff_read-encode_vcdiff memory_reader-IsReader 100 1 stream
      (new_bm (encode_vcdiff stream)) stream-IsStream
      (new_bm-Holds (encode_vcdiff stream) (omega (arith, length-stream)))
      (omega (arith, length-stream))

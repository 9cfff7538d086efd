-- ===== src/Line/Examples.antt =====
-- Runs and an instance for the line reader.
use diagonal.Base.{ℕ, ◌≡◌, refl, none, List, [], ◌∷◌, arith}
use diagonal.Port.Memory.{MemoryPort, new_bm, read_bytes_bm, memory_reader}
use diagonal.Port.Counted.{memory_reader-IsCounted}
use diagonal.Line.{
  LineContext, LineError, diag_line_context_new, scan, joined, ended, scanned, take_line, refilled,
  read_loop, diag_line_read,
}
use diagonal.Line.Scan.{other_lines}
use diagonal.Line.Outcome.{outcome}
use diagonal.Line.Reads.{Remains, diag_line_read-IsRead}

-- "ab\ncdefg\nh", read in blocks of 4 bytes
abbrev text : List ℕ
text = 97 ∷ 98 ∷ 10 ∷ 99 ∷ 100 ∷ 101 ∷ 102 ∷ 103 ∷ 10 ∷ 104 ∷ []

abbrev start : LineContext MemoryPort
start = diag_line_context_new (new_bm text) (0 ∷ 0 ∷ 0 ∷ 0 ∷ [])

abbrev read : LineContext MemoryPort → LineError × LineContext MemoryPort
read context = diag_line_read memory_reader (λ port. port.i_pos) 4 20 context

-- Three lines, the second of them from two blocks and the third without a newline, and the end.
lines :
    ((read start).0 ≡ LineError.error_ok (97 ∷ 98 ∷ []))
    × ((read (read start).1).0 ≡ LineError.error_ok (99 ∷ 100 ∷ 101 ∷ 102 ∷ 103 ∷ []))
    × ((read (read (read start).1).1).0 ≡ LineError.error_ok (104 ∷ []))
    × ((read (read (read (read start).1).1).1).0 ≡ LineError.error_eof)
unfolding diag_line_read read_loop refilled take_line scanned scan joined ended memory_reader
    read_bytes_bm new_bm diag_line_context_new
lines = (refl, refl, refl, refl)

start-Remains : Remains memory_reader-IsCounted 4 start text
unfolding diag_line_context_new new_bm
start-Remains = record {
  tail = text;
  held = record {
    valid = record { size_fits = omega arith; i_within = omega arith; o_within = omega arith };
    left = refl;
  };
  sized = refl;
  within = omega arith;
  left = refl;
}

diag_line_read-IsRead_example :
    ((diag_line_read memory_reader (λ port. port.i_pos) 4 20 start).0 ≡ outcome none text)
    × Remains memory_reader-IsCounted 4
        (diag_line_read memory_reader (λ port. port.i_pos) 4 20 start).1
        (other_lines text)
diag_line_read-IsRead_example =
    diag_line_read-IsRead memory_reader-IsCounted 4 20 start text (omega arith) (omega arith)
      start-Remains

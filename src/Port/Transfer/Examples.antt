-- ===== src/Port/Transfer/Examples.antt =====
-- Runs and instances for the copy and the comparison of ports.
use diagonal.Base.{ℕ, ◌≡◌, ◌≢◌, ◌⊎◌, refl, List, [], ◌∷◌, arith, length-replicate, replicate}
use diagonal.Port.Memory.{MemoryPort, new_bm, read_bytes_bm, write_bytes_bm, memory_reader}
use diagonal.Port.Memory.Laws.{Holds}
use diagonal.Port.Counted.{memory_reader-IsCounted}
use diagonal.Port.Transfer.{
  buffer_length, copied, copy_rest, copy_step, copy_loop, written, diag_port_copy, equal, differ,
  diag_port_diff,
}
use diagonal.Port.Transfer.Copy.{diag_port_copy-copies}
use diagonal.Port.Transfer.Diff.{diag_port_diff-equal}
use diagonal.Port.Transfer.ToMemory.{Wrote, memory_writer, memory_writer-IsWriter}

abbrev buffer : List ℕ
buffer = replicate buffer_length 0

abbrev source : MemoryPort
source = new_bm (7 ∷ 8 ∷ 9 ∷ [])

abbrev target : MemoryPort
target = new_bm (0 ∷ 0 ∷ 0 ∷ 0 ∷ [])

source-Holds : Holds source (7 ∷ 8 ∷ 9 ∷ [])
unfolding new_bm
source-Holds = record {
  valid = record { size_fits = omega arith; i_within = omega arith; o_within = omega arith };
  left = refl;
}

target-Wrote : Wrote target [] 4
unfolding new_bm
target-Wrote = record {
  valid = record { size_fits = omega arith; i_within = omega arith; o_within = omega arith };
  before = refl;
  fits = omega arith;
}

diag_port_copy-copies_example :
    (s' : MemoryPort) × (t' : MemoryPort) × (diag_port_copy memory_reader
        (λ port. port.i_pos)
        memory_writer
        1
        buffer
        source
        target
      ≡ copied 3 s' t')
    × Holds s' []
    × Wrote t' (7 ∷ 8 ∷ 9 ∷ []) 1
unfolding new_bm
diag_port_copy-copies_example =
    diag_port_copy-copies memory_reader-IsCounted memory_writer-IsWriter 1 buffer (7 ∷ 8 ∷ 9 ∷ [])
      source target [] 1 (omega arith) (length-replicate {A = ℕ} 4096 0) source-Holds refl
      target-Wrote

abbrev later : MemoryPort
later = record { head = 1 ∷ 7 ∷ 8 ∷ 6 ∷ []; i_pos = 1; o_pos = 0 }

later-Holds : Holds later (7 ∷ 8 ∷ 6 ∷ [])
later-Holds = record {
  valid = record { size_fits = omega arith; i_within = omega arith; o_within = omega arith };
  left = refl;
}

diag_port_diff-equal_example :
    (((diag_port_diff memory_reader
          (λ port. port.i_pos)
          memory_reader
          (λ port. port.i_pos)
          1
          buffer
          buffer
          source
          later).0
        ≡ equal)
      × (◌≡◌ {A = List ℕ} (7 ∷ 8 ∷ 9 ∷ []) (7 ∷ 8 ∷ 6 ∷ [])))
    ⊎ (((diag_port_diff memory_reader
            (λ port. port.i_pos)
            memory_reader
            (λ port. port.i_pos)
            1
            buffer
            buffer
            source
            later).0
          ≡ differ)
        × (◌≢◌ {A = List ℕ} (7 ∷ 8 ∷ 9 ∷ []) (7 ∷ 8 ∷ 6 ∷ [])))
diag_port_diff-equal_example =
    diag_port_diff-equal memory_reader-IsCounted memory_reader-IsCounted 1 buffer buffer
      (7 ∷ 8 ∷ 9 ∷ []) (7 ∷ 8 ∷ 6 ∷ []) source later (omega arith) source-Holds later-Holds

-- A port of which one byte has been read already: one byte too many is written.
started :
    diag_port_copy memory_reader
      (λ port. port.i_pos)
      memory_writer
      1
      buffer
      (record { head = 7 ∷ 8 ∷ 9 ∷ []; i_pos = 1; o_pos = 0 })
      target
    ≡ copied 3
        (record { head = 7 ∷ 8 ∷ 9 ∷ []; i_pos = 3; o_pos = 0 })
        (record { head = 8 ∷ 9 ∷ 0 ∷ 0 ∷ []; i_pos = 0; o_pos = 3 })
unfolding diag_port_copy copy_loop copy_step copy_rest written memory_reader memory_writer
    read_bytes_bm write_bytes_bm new_bm
started = refl

-- No room at all: nothing is written, and 3 is returned.
no_room :
    diag_port_copy memory_reader (λ port. port.i_pos) memory_writer 1 buffer source (new_bm [])
    ≡ copied 3 (record { head = 7 ∷ 8 ∷ 9 ∷ []; i_pos = 3; o_pos = 0 }) (new_bm [])
unfolding diag_port_copy copy_loop copy_step copy_rest written memory_reader memory_writer
    read_bytes_bm write_bytes_bm new_bm
no_room = refl

-- ===== src/Port/Transfer/ToMemory.antt =====
-- A memory port as an output port: what has been written to it, and the room that it has left.
use diagonal.Base.{
  ℕ, ◌+◌, ◌≤◌, ◌≡◌, sym, ap, ◌∙◌, List, ◌++◌, arith, leb, true, length, length-append, length-take,
  take, drop, append_assoc,
}
use diagonal.Base.Slices.{overwrite, take-append_left, length-overwrite}
use diagonal.Base.Word.{add_size}
use diagonal.Port.Memory.{MemoryPort, size, IsValid, write_bytes_bm}
use diagonal.Port.Transfer.{Writer}
use diagonal.Port.Transfer.Copy.{IsWriter}

unfoldable pub memory_writer : Writer MemoryPort
memory_writer = record { write_bytes = write_bytes_bm }

-- The block before `o_pos` is what has been written.
pub record Wrote (port : MemoryPort) (out : List ℕ) (room : ℕ) : Type 0 where
  pub valid : IsValid port
  pub before : take port.o_pos port.head ≡ out
  pub fits : port.o_pos + room ≤ size port

take-overwrite_end :
    (xs : List ℕ) (at : ℕ) (ys : List ℕ)
    → at ≤ length xs
    → take (at + length ys) (overwrite xs at ys) ≡ take at xs ++ ys
take-overwrite_end xs at ys h =
    ap (take (at + length ys)) (sym (append_assoc (take at xs) ys (drop (length ys) (drop at xs))))
    ∙ take-append_left (take at xs ++ ys) (drop (length ys) (drop at xs)) (at + length ys)
        (omega (arith, length-append (take at xs) ys, length-take at xs))

appended : (port : MemoryPort) → List ℕ → MemoryPort
appended port xs = record port {
  head = overwrite port.head port.o_pos xs;
  o_pos = port.o_pos + length xs;
}

pub memory_writer-IsWriter : IsWriter memory_writer Wrote
unfolding memory_writer write_bytes_bm appended
memory_writer-IsWriter = record {
  write_done = λ port xs out room w.
      let moved : add_size port.o_pos (length xs) ≡ port.o_pos + length xs =
        omega (arith, w.fits, w.valid.size_fits) in
      let kept = length-overwrite port.head port.o_pos xs (omega (arith, w.fits)) in
      (
        appended port xs,
        rw (moved, inside (port.o_pos + length xs) (size port) (omega (arith, w.fits))),
        record {
          valid = record {
            size_fits = omega (arith, kept, w.valid.size_fits);
            i_within = omega (arith, kept, w.valid.i_within);
            o_within = omega (arith, kept, w.fits);
          };
          before =
              take-overwrite_end port.head port.o_pos xs (omega (arith, w.fits))
              ∙ ap (λ k. k ++ xs) w.before;
          fits = omega (arith, kept, w.fits);
        },
      );
}
  where
    inside : (a b : ℕ) → a ≤ b → leb a b ≡ true
    inside a b h = ground arith

-- ===== src/Port/Transfer.antt =====
-- From port to port: `diag_port_copy` and `diag_port_diff` of src/port.c.
pub mod Copy
pub mod Diff
pub mod ToMemory
mod Examples
use diagonal.Base.{
  ℕ, zero, suc, ◌+◌, ◌≡◌, Bool, true, false, Option, none, some, List, [], ◌∷◌, ltb, leb, ◌==◌,
  ◌&&◌, if◌then◌else◌, length, take,
}
use diagonal.Base.Slices.{overwrite}
use diagonal.Base.Word.{sub_size}
use diagonal.Port.{Status, done, short, fail, Reader}

-- `write_bytes` of an output port.
pub record Writer (T : Type 0) : Type 0 where
  pub write_bytes : List ℕ → T → Status × T

-- `BUFFER_LENGTH`
abbrev pub buffer_length : ℕ
buffer_length = 4096

-- The length with both ports as they are then, or -1 after a port has failed. `fault` is an access
-- past the end of the buffer, and `stuck` a loop that ran out of fuel.
pub data Copied (S T : Type 0) : Type 0 where
  copied : ℕ → S → T → Copied S T
  failed : S → T → Copied S T
  fault : Copied S T
  stuck : Copied S T

module _ {S T : Type 0} (iport : Reader S) (i_pos : S → ℕ) (oport : Writer T) where
  -- What follows a write: -1 ends the copy, and a short write passes as a complete one.
  unfoldable pub written : Status × T → S → (T → Copied S T) → Copied S T
  written (done, t) s k = k t
  written (short, t) s k = k t
  written (fail, t) s k = Copied.failed s t

  -- From `size_t len = ...` on, with `buf` as the last read has left it.
  unfoldable pub copy_rest : ℕ → List ℕ → S → T → Copied S T
  copy_rest pos buf s t =
      let len = sub_size (i_pos s) pos in
      if ltb 0 len
      then if leb len (length buf)
        then written (oport.write_bytes (take len buf) t) s (λ t'. Copied.copied (pos + len) s t')
        else Copied.fault
      else Copied.copied pos s t

  -- What follows a read, which stores its bytes at the front of the buffer; `next` is the loop.
  unfoldable pub copy_step :
      (next : ℕ → List ℕ → S → T → Copied S T) → ℕ → List ℕ → Status × List ℕ × S → T → Copied S T
  copy_step next pos buf (fail, bs, s) t = Copied.failed s t
  copy_step next pos buf (short, bs, s) t = copy_rest pos (overwrite buf 0 bs) s t
  copy_step next pos buf (done, bs, s) t =
      written (oport.write_bytes (take buffer_length (overwrite buf 0 bs)) t) s
        (next (pos + buffer_length) (overwrite buf 0 bs) s)

  unfoldable pub copy_loop : ℕ → ℕ → List ℕ → S → T → Copied S T
  copy_loop zero pos buf s t = Copied.stuck
  copy_loop (suc fuel) pos buf s t =
      copy_step (copy_loop fuel) pos buf (iport.read_bytes buffer_length s) t

  -- `buf` is what the new buffer holds.
  unfoldable pub diag_port_copy : ℕ → List ℕ → S → T → Copied S T
  diag_port_copy fuel buf s t = copy_loop fuel 0 buf s t

-- The results 0, 1 and -1. `overrun` and `out_of_fuel` are as `fault` and `stuck`.
pub data Compared : Type 0 where
  equal : Compared
  differ : Compared
  unread : Compared
  overrun : Compared
  out_of_fuel : Compared

-- `memcmp(buf1, buf2, n) == 0`, and none where a buffer is shorter.
unfoldable pub same_bytes : ℕ → List ℕ → List ℕ → Option Bool
same_bytes zero xs ys = some true
same_bytes (suc n) [] ys = none
same_bytes (suc n) (x ∷ xs) [] = none
same_bytes (suc n) (x ∷ xs) (y ∷ ys) = if x == y then same_bytes n xs ys else some false

module _ {S T : Type 0} (iport1 : Reader S) (i_pos1 : S → ℕ) (iport2 : Reader T)
    (i_pos2 : T → ℕ) where
  -- What follows a `memcmp`.
  unfoldable pub unless_differ : Option Bool → S → T → Compared × S × T → Compared × S × T
  unless_differ none s t k = (overrun, s, t)
  unless_differ (some true) s t k = k
  unless_differ (some false) s t k = (differ, s, t)

  -- From `len1 = ...` on, after the last read of both ports.
  unfoldable pub diff_rest : ℕ → ℕ → List ℕ → List ℕ → S → T → Compared × S × T
  diff_rest pos1 pos2 buf1 buf2 s t =
      let len1 = sub_size (i_pos1 s) pos1 in
      if len1 == sub_size (i_pos2 t) pos2
      then if ltb 0 len1
        then unless_differ (same_bytes len1 buf1 buf2) s t (equal, s, t)
        else (equal, s, t)
      else (differ, s, t)

  -- What follows the two reads of a round; `next` is the next round.
  unfoldable pub diff_second :
      (next : ℕ → ℕ → List ℕ → List ℕ → S → T → Compared × S × T)
      → ℕ
      → ℕ
      → List ℕ
      → List ℕ
      → Status
      → S
      → Status × List ℕ × T
      → Compared × S × T
  diff_second next pos1 pos2 buf1 buf2 r1 s (fail, bs, t) = (unread, s, t)
  diff_second next pos1 pos2 buf1 buf2 done s (done, bs, t) =
      let buf2' = overwrite buf2 0 bs in
      unless_differ (same_bytes buffer_length buf1 buf2') s t
        (next (i_pos1 s) (i_pos2 t) buf1 buf2' s t)
  diff_second next pos1 pos2 buf1 buf2 short s (short, bs, t) =
      diff_rest pos1 pos2 buf1 (overwrite buf2 0 bs) s t
  diff_second next pos1 pos2 buf1 buf2 r1 s (r2, bs, t) = (differ, s, t)

  unfoldable pub diff_first :
      (next : ℕ → ℕ → List ℕ → List ℕ → S → T → Compared × S × T)
      → ℕ
      → ℕ
      → List ℕ
      → List ℕ
      → Status × List ℕ × S
      → T
      → Compared × S × T
  diff_first next pos1 pos2 buf1 buf2 (fail, bs, s) t = (unread, s, t)
  diff_first next pos1 pos2 buf1 buf2 (r1, bs, s) t =
      diff_second next pos1 pos2 (overwrite buf1 0 bs) buf2 r1 s (iport2.read_bytes buffer_length t)

  -- From `iter` on. `pos1` and `pos2` are the positions after the last complete reads.
  unfoldable pub diff_loop : ℕ → ℕ → ℕ → List ℕ → List ℕ → S → T → Compared × S × T
  diff_loop zero pos1 pos2 buf1 buf2 s t = (out_of_fuel, s, t)
  diff_loop (suc fuel) pos1 pos2 buf1 buf2 s t =
      diff_first (diff_loop fuel) pos1 pos2 buf1 buf2 (iport1.read_bytes buffer_length s) t

  -- `buf1` and `buf2` are what the two halves of the new buffer hold.
  unfoldable pub diag_port_diff : ℕ → List ℕ → List ℕ → S → T → Compared × S × T
  diag_port_diff fuel buf1 buf2 s t = diff_loop fuel (i_pos1 s) (i_pos2 t) buf1 buf2 s t

-- ===== src/Port.antt =====
-- Ports (src/port.c, src/diagonal/port.h): what a client of an input port relies on.
-- A port carries its own `read_byte` and `read_bytes`; `Reader` holds these two function pointers.
pub mod Memory
pub mod Input
pub mod Counted
pub mod Transfer
use diagonal.Base.{ℕ, ◌+◌, ◌≤◌, ◌<◌, ◌≡◌, List, [], ◌∷◌, ◌++◌, length}

-- The `int` that a read or a write returns: 1, 0 or -1.
pub data Status : Type 0 where
  done short fail : Status

-- A read returns its status, the bytes that it stored, and the port as it is afterwards.
pub record Reader (S : Type 0) : Type 0 where
  pub read_byte : S → Status × ℕ × S
  pub read_bytes : ℕ → S → Status × List ℕ × S

-- `Holds s bs`: the port `s` is usable, and `bs` is what it has not delivered yet.
pub record IsReader {S : Type 0} (port : Reader S) (Holds : S → List ℕ → Type 0) : Type 0 where
  pub byte_done :
      (s : S) (b : ℕ) (bs : List ℕ)
      → Holds s (b ∷ bs)
      → (s' : S) × (port.read_byte s ≡ (Status.done, b, s')) × Holds s' bs
  pub byte_short : (s : S) → Holds s [] → (port.read_byte s).0 ≡ Status.short
  pub bytes_done :
      (s : S) (n : ℕ) (xs ys : List ℕ)
      → length xs ≡ n
      → Holds s (xs ++ ys)
      → (s' : S) × (port.read_bytes n s ≡ (Status.done, xs, s')) × Holds s' ys
  pub bytes_short :
      (s : S) (n : ℕ) (bs : List ℕ)
      → length bs < n
      → Holds s bs
      → (port.read_bytes n s).0 ≡ Status.short

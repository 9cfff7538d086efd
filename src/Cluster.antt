-- ===== src/Cluster.antt =====
-- The differences of two strings as a code (src/cluster.c, src/diagonal/cluster.h).
-- A string is the list of its characters before the '\0', and a pointer into it is the rest of it.
-- `same` is the test `x == y` of pointers. The deque of the deltas is the sequence of its elements.
pub mod Applied
pub mod Counts
pub mod Analysis
mod Examples
use diagonal.Base.{
  ℕ, Bool, Option, none, some, List, [], ◌∷◌, ◌++◌, ◌==◌, if◌then◌else◌, length, set,
}
use diagonal.Base.Word.{add_size}

pub data DeltaType : Type 0 where
  replace insert delete append trim : DeltaType

-- `index` is 0 and `value` is empty where the code leaves them unwritten.
pub record Delta : Type 0 where
  pub type : DeltaType
  pub index : ℕ
  pub value : List ℕ

-- `struct diag_code`, less its cluster, which no operation reads.
pub record DeltaCode : Type 0 where
  pub num_deltas : ℕ
  pub deltas : List Delta

unfoldable pub delta_append : List ℕ → Delta
delta_append y = record { type = DeltaType.append; index = 0; value = y }

unfoldable pub delta_trim : ℕ → Delta
delta_trim i = record { type = DeltaType.trim; index = i; value = [] }

unfoldable pub delta_replace : ℕ → List ℕ → Delta
delta_replace i y = record { type = DeltaType.replace; index = i; value = y }

-- `for (;; i++, x++, y++)`; a push goes behind the elements of the deque.
unfoldable pub delta_loop : ℕ → List ℕ → List ℕ → List Delta → List Delta
delta_loop i [] [] deque = deque
delta_loop i [] (y ∷ ys) deque = deque ++ (delta_append (y ∷ ys) ∷ [])
delta_loop i (x ∷ xs) [] deque = deque ++ (delta_trim i ∷ [])
delta_loop i (x ∷ xs) (y ∷ ys) deque =
    delta_loop (add_size i 1) xs ys
      (if x == y then deque else deque ++ (delta_replace i (y ∷ ys) ∷ []))

-- `code->deltas[i++] = d` for each element of the deque.
unfoldable pub deltas_loop : List Delta → ℕ → List Delta → List Delta
deltas_loop deltas i [] = deltas
deltas_loop deltas i (d ∷ ds) = deltas_loop (set deltas i d) (add_size i 1) ds

-- `memory n` is what a new array of `n` deltas holds. `none` is NULL.
unfoldable pub diag_delta_hamming_chars :
    (memory : ℕ → List Delta) → Bool → List ℕ → List ℕ → Option DeltaCode
diag_delta_hamming_chars memory same x y =
    let deque = delta_loop 0 x y [] in
    if same
    then none
    else some
        (record { num_deltas = length deque; deltas = deltas_loop (memory (length deque)) 0 deque })

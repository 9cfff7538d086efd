-- ===== src/Pairs.antt =====
-- Pairs and the lists over them: src/pair.c and src/list.c.
-- The heap holds the pairs at their addresses, nothing where a pair has been freed. A pointer to a
-- pair is its address, and `none` is NULL. A loop ends with nothing when its fuel runs out or when
-- it reads a pair that is not there.
pub mod Lists
pub mod ToVector
mod Examples
use diagonal.Base.{
  ℕ, zero, suc, ◌+◌, Option, none, some, List, [], ◌∷◌, ◌++◌, and_then, length, get_elem?, set,
}
use diagonal.Base.Word.{add_size}

-- `cdr` is used as a pointer.
pub record Pair : Type 0 where
  pub car : ℕ
  pub cdr : Option ℕ

abbrev pub Heap : Type 0
Heap = List (Option Pair)

unfoldable pub pair_at : Heap → ℕ → Option Pair
pair_at heap a = and_then (get_elem? heap a) (λ p. p)

unfoldable pub diag_pair_create : ℕ → Option ℕ → Heap → ℕ × Heap
diag_pair_create car cdr heap = (length heap, heap ++ (some (record { car = car; cdr = cdr }) ∷ []))

unfoldable pub diag_pair_destroy : ℕ → Heap → Heap
diag_pair_destroy a heap = set heap a none

unfoldable pub diag_list_destroy : ℕ → Option ℕ → Heap → Option Heap
diag_list_destroy fuel none heap = some heap
diag_list_destroy zero (some a) heap = none
diag_list_destroy (suc fuel) (some a) heap =
    and_then (pair_at heap a) (λ p. diag_list_destroy fuel p.cdr (diag_pair_destroy a heap))

unfoldable pub length_loop : Heap → ℕ → Option ℕ → ℕ → Option ℕ
length_loop heap fuel none s = some s
length_loop heap zero (some a) s = none
length_loop heap (suc fuel) (some a) s =
    and_then (pair_at heap a) (λ p. length_loop heap fuel p.cdr (add_size s 1))

unfoldable pub diag_list_length : Heap → ℕ → Option ℕ → Option ℕ
diag_list_length heap fuel list = length_loop heap fuel list 0

-- The element, or `diag_fatal`.
pub data Element : Type 0 where
  element : ℕ → Element
  list_is_null : Element
  exceed_list_length : Element

-- `while (i-- > 0)` from the pair that `list` points to on, which is not NULL at first; `null` is
-- the message for NULL.
unfoldable pub ref_loop : Heap → ℕ → Option ℕ → Element → Option Element
ref_loop heap i none null = some null
ref_loop heap zero (some a) null = and_then (pair_at heap a) (λ p. some (Element.element p.car))
ref_loop heap (suc i) (some a) null =
    and_then (pair_at heap a) (λ p. ref_loop heap i p.cdr Element.exceed_list_length)

unfoldable pub diag_list_ref : Heap → Option ℕ → ℕ → Option Element
diag_list_ref heap list i = ref_loop heap i list Element.list_is_null

-- `p` is the list that is built.
unfoldable pub reverse_loop : ℕ → Option ℕ → Option ℕ → Heap → Option (Option ℕ × Heap)
reverse_loop fuel none p heap = some (p, heap)
reverse_loop zero (some a) p heap = none
reverse_loop (suc fuel) (some a) p heap = and_then (pair_at heap a) (λ c.
    reverse_loop fuel c.cdr (some (diag_pair_create c.car p heap).0)
      (diag_pair_create c.car p heap).1)

unfoldable pub diag_list_reverse : ℕ → Option ℕ → Heap → Option (Option ℕ × Heap)
diag_list_reverse fuel list heap = reverse_loop fuel list none heap

-- ===== src/Deque.antt =====
-- Deques (src/deque.c, src/diagonal/deque.h): doubly linked lists in a heap that deques share.
--
-- The heap is the list of the elements allocated so far, and a pointer the index of one, or `none`
-- for NULL. The result `none` of an operation is a failed assertion or an access through NULL.
pub mod Chain
pub mod Laws
pub mod Sequence
pub mod Append
mod Examples
use diagonal.Base.{
  ℕ, zero, suc, ◌+◌, Bool, true, false, Option, none, some, List, [], ◌∷◌, ◌++◌, if◌then◌else◌,
  ◌==◌, length, get_elem?, set,
}
use diagonal.Base.Word.{add_size, sub_size}

abbrev pub Pointer : Type 0
Pointer = Option ℕ

pub record DequeElem : Type 0 where
  pub attr : ℕ
  pub prev : Pointer
  pub next : Pointer

pub record Deque : Type 0 where
  pub first : Pointer
  pub last : Pointer
  pub length : ℕ

abbrev pub Heap : Type 0
Heap = List DequeElem

-- The arguments of the macros: `first` is (first, last, prev, next), `last` is (last, first, next, prev).
pub data Side : Type 0 where
  at_first at_last : Side

abbrev pub opposite : Side → Side
opposite at_first = at_last
opposite at_last = at_first

-- `deque->end1`
abbrev pub end_of : Side → Deque → Pointer
end_of at_first d = d.first
end_of at_last d = d.last

abbrev pub put_end : Side → Pointer → Deque → Deque
put_end at_first p d = record d { first = p }
put_end at_last p d = record d { last = p }

-- `elem->link1`
abbrev pub link : Side → DequeElem → Pointer
link at_first e = e.prev
link at_last e = e.next

abbrev pub put_link : Side → Pointer → DequeElem → DequeElem
put_link at_first p e = record e { prev = p }
put_link at_last p e = record e { next = p }

-- `elem->attr = attr; elem->link1 = NULL; elem->link2 = tmp;`
abbrev pub new_elem : Side → ℕ → Pointer → DequeElem
new_elem at_first attr tmp = record { attr = attr; prev = none; next = tmp }
new_elem at_last attr tmp = record { attr = attr; prev = tmp; next = none }

-- `a->link1 = p`
pub write_link : Side → Heap → Pointer → Pointer → Option Heap
write_link s heap none p = none
write_link s heap (some a) p = elim (get_elem? heap a) [
  | none ↦ none
  | some e ↦ some (set heap a (put_link s p e))
]

abbrev pub deque_new : Deque
deque_new = record { first = none; last = none; length = 0 }

-- What an operation leaves: the heap, the deque, and the element returned.
pub record After : Type 0 where
  pub heap : Heap
  pub deque : Deque
  pub elem : Pointer

-- DIAG_DEQUE_ADD
pub deque_add : Side → Heap → Deque → ℕ → Option After
deque_add s heap deque attr =
    let tmp = end_of s deque in
    let elem = some (length heap) in
    let allocated = heap ++ (new_elem s attr tmp ∷ []) in
    let length' = add_size deque.length 1 in
    if deque.length == 0
    then some (record {
      heap = allocated;
      deque = record (put_end s elem (put_end (opposite s) elem deque)) { length = length' };
      elem = elem;
    })
    else elim (write_link s allocated tmp elem) [
      | none ↦ none
      | some written ↦ some (record {
        heap = written;
        deque = record (put_end s elem deque) { length = length' };
        elem = elem;
      })
    ]

-- `assert(elem && elem == deque->end2)`
abbrev pub same_pointer : Pointer → Pointer → Bool
same_pointer none q = false
same_pointer (some a) none = false
same_pointer (some a) (some b) = a == b

-- `elem->link2`
pub read_link : Side → Heap → Pointer → Pointer
read_link s heap none = none
read_link s heap (some a) = elim (get_elem? heap a) [ none ↦ none | some e ↦ link (opposite s) e ]

-- DIAG_DEQUE_REMOVE
pub deque_remove : Side → Heap → Deque → Option After
deque_remove s heap deque =
    let elem = end_of s deque in
    let tmp = read_link s heap elem in
    let length' = sub_size deque.length 1 in
    if deque.length == 0
    then elim elem [
      | none ↦ some (record { heap = heap; deque = deque; elem = none })
      | some a ↦ none
    ]
    else if deque.length == 1
    then if same_pointer elem (end_of (opposite s) deque)
      then some (record {
        heap = heap;
        deque = record (put_end s none (put_end (opposite s) none deque)) { length = length' };
        elem = elem;
      })
      else none
    else elim (write_link s heap tmp none) [
      | none ↦ none
      | some written ↦ some (record {
        heap = written;
        deque = record (put_end s tmp deque) { length = length' };
        elem = elem;
      })
    ]

abbrev pub deque_shift : Heap → Deque → Option After
deque_shift = deque_remove at_first

abbrev pub deque_unshift : Heap → Deque → ℕ → Option After
deque_unshift = deque_add at_first

abbrev pub deque_push : Heap → Deque → ℕ → Option After
deque_push = deque_add at_last

abbrev pub deque_pop : Heap → Deque → Option After
deque_pop = deque_remove at_last

-- What `append` leaves of its two deques.
pub record Joined : Type 0 where
  pub heap : Heap
  pub head : Deque
  pub tail : Deque

-- `x->next = y; y->prev = x;`
pub join_links : Heap → Pointer → Pointer → Option Heap
join_links heap x y = elim (write_link at_last heap x y) [
  | none ↦ none
  | some heap' ↦ write_link at_first heap' y x
]

pub deque_append : Heap → Deque → Deque → Option Joined
deque_append heap head tail =
    if tail.length == 0
    then some (record { heap = heap; head = head; tail = tail })
    else if head.length == 0
    then some (record { heap = heap; head = tail; tail = deque_new })
    else elim (join_links heap head.last tail.first) [
      | none ↦ none
      | some heap' ↦ some (record {
        heap = heap';
        head = record head { length = add_size head.length tail.length; last = tail.last };
        tail = deque_new;
      })
    ]

-- ===== src/Vector.antt =====
-- Variable-length vectors (src/vector.c, src/diagonal/vector.h).
pub mod Laws
pub mod Stack
pub mod Fill
mod Examples
use diagonal.Base.{
  ℕ, zero, suc, ◌+◌, ◌-◌, ◌*◌, ◌/◌, ◌%◌, ◌≤◌, ◌<◌, ◌≡◌, Option, none, some, List, ◌++◌, ltb, leb,
  ◌==◌, if◌then◌else◌, length, get_elem?, set, take, drop, replicate,
}
use diagonal.Base.Slices.{overwrite}
use diagonal.Base.Word.{size_mod, add_size, sub_size}

-- `none` is an element that nothing has written yet.
pub record Vector : Type 0 where
  pub capacity : ℕ
  pub size : ℕ
  pub elements : List (Option ℕ)

-- `fatal` ends the program, `null` is the result NULL, `fault` is an access outside the block, and
-- `stuck` a loop that ran out of fuel.
pub data Outcome (A : Type 0) : Type 0 where
  ok : A → Outcome A
  fatal null fault stuck : Outcome A

-- `SIZE_MAX / sizeof(intptr_t)`
abbrev pub max_elements : ℕ
max_elements = (size_mod - 1) / 8

-- `while (c < length) c <<= 1;`
pub create_loop : ℕ → ℕ → ℕ → Option ℕ
create_loop zero c n = none
create_loop (suc fuel) c n =
    let rest = create_loop fuel (c * 2 % size_mod) n in if ltb c n then rest else some c

-- 64 rounds are enough for a length up to 2 ^ 63. For a longer one `c` becomes 0, and the loop
-- never ends.
pub vector_create : ℕ → Outcome Vector
vector_create n = elim (create_loop 64 1 n) [
  | none ↦ Outcome.stuck
  | some c ↦
      if leb max_elements c
      then Outcome.fatal
      else Outcome.ok (record { capacity = c; size = n; elements = replicate c none })
]

-- An index from the length on is only reported.
pub vector_ref : Vector → ℕ → Outcome (Option ℕ)
vector_ref v k = elim (get_elem? v.elements k) [ none ↦ Outcome.fault | some e ↦ Outcome.ok e ]

unfoldable pub vector_set : Vector → ℕ → ℕ → Outcome Vector
vector_set v k e =
    if ltb k (length v.elements)
    then Outcome.ok (record v { elements = set v.elements k (some e) })
    else Outcome.fault

-- `n` elements are left from index `k` on.
pub fill_loop : ℕ → ℕ → ℕ → Vector → Outcome Vector
fill_loop zero k e v = Outcome.ok v
fill_loop (suc n) k e v = elim (vector_set v k e) [
  | Outcome.ok v' ↦ fill_loop n (k + 1) e v'
  | Outcome.fatal ↦ Outcome.fatal
  | Outcome.null ↦ Outcome.null
  | Outcome.fault ↦ Outcome.fault
  | Outcome.stuck ↦ Outcome.stuck
]

pub vector_fill : Vector → ℕ → Outcome Vector
vector_fill v e = fill_loop v.size 0 e v

-- `memcpy` of `n` elements from index `start` of `v` to the front of `w`.
pub elements_copy : Vector → ℕ → ℕ → Vector → Outcome Vector
elements_copy v start n w =
    if ltb (length v.elements) (start + n)
    then Outcome.fault
    else if ltb (length w.elements) n
    then Outcome.fault
    else Outcome.ok
        (record w { elements = overwrite w.elements 0 (take n (drop start v.elements)) })

-- A new vector of `n` elements, copied from index `start` of `v` on.
pub create_from : Vector → ℕ → ℕ → Outcome Vector
create_from v start n = elim (vector_create n) [
  | Outcome.ok w ↦ if n == 0 then Outcome.ok w else elements_copy v start n w
  | Outcome.fatal ↦ Outcome.fatal
  | Outcome.null ↦ Outcome.null
  | Outcome.fault ↦ Outcome.fault
  | Outcome.stuck ↦ Outcome.stuck
]

pub vector_copy : Vector → Outcome Vector
vector_copy v = create_from v 0 v.size

pub vector_copy_from : Vector → ℕ → Outcome Vector
vector_copy_from v start =
    if ltb v.size start then Outcome.null else create_from v start (v.size - start)

-- `v->elements[v->length++] = e;`
pub append_element : Vector → ℕ → Outcome Vector
append_element v e =
    if ltb v.size (length v.elements)
    then Outcome.ok
        (record v { size = add_size v.size 1; elements = set v.elements v.size (some e) })
    else Outcome.fault

pub vector_push_back : Vector → ℕ → Outcome Vector
vector_push_back v e =
    let c = v.capacity * 2 % size_mod in
    let grown = record v {
      capacity = c;
      elements = take c v.elements ++ replicate (c - length v.elements) none;
    } in
    if v.size == v.capacity
    then if leb max_elements c then Outcome.fatal else append_element grown e
    else append_element v e

pub vector_pop_back : Vector → Vector
vector_pop_back v = record v { size = sub_size v.size 1 }

-- The block has the capacity, which `vector_create` and `vector_push_back` have checked.
pub record IsValid (v : Vector) : Type 0 where
  pub block_size : length v.elements ≡ v.capacity
  pub within : v.size ≤ v.capacity
  pub positive : 0 < v.capacity
  pub bounded : v.capacity < max_elements

-- The elements that the vector stands for.
abbrev pub contents : Vector → List (Option ℕ)
contents v = take v.size v.elements

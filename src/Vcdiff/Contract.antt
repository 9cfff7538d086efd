-- ===== src/Vcdiff/Contract.antt =====
-- Finding repeated parts of some data and writing them as COPYs: `lookback` and
-- `diag_vcdiff_contract` of src/vcdiff.c. `none` is an access outside an array or a failed assertion.
--
-- The rolling hash is a parameter: its `init` and `roll` with the state that they share. All indices
-- stay below the size of the data, so only `head` can pass 0.
pub mod Loops
pub mod Copies
pub mod Search
pub mod Pieces
pub mod Assemble
pub mod Expands
pub mod RabinKarp
mod Examples
use diagonal.Base.{
  and_then, ℕ, zero, suc, ◌+◌, ◌-◌, ◌*◌, ◌/◌, ◌%◌, Bool, true, false, Option, none, some, List, [],
  ◌∷◌, ltb, ◌==◌, if◌then◌else◌, length, get_elem?, set, take, drop, replicate, map,
}
use diagonal.Base.Slices.{slice}
use diagonal.Base.Word.{add_size, sub_size}
use Prim.Native.Nat.{compare}
use diagonal.RbTree.{Entry, RbTree}
use diagonal.RbTree.Insert.{rbtree_insert}
use diagonal.RbTree.Insert.Sequence.{rbtree_create}
use diagonal.RbTree.Walk.{rbtree_for_each}
use diagonal.Vcdiff.Expand.{Pcode, add_code, copy_code, pcode_size, Script}

-- The two functions that a rolling hash carries.
pub record Rolling (S : Type 0) : Type 0 where
  pub init : S → ℕ × S
  pub roll : S → Option (ℕ × S)

-- The tree of instructions by the index of their first byte.
abbrev pub PieceTree : Type 0
PieceTree = RbTree ℕ Pcode

abbrev pub piece : ℕ → Pcode → Entry ℕ Pcode
piece key p = record { key = key; attr = p }

module _ (bytes : List ℕ) where
  -- `for (n = 0; n < rh->s_window; n++)`, from the indices `a` and `b` on for `n` more rounds
  pub matches : ℕ → ℕ → ℕ → Option Bool
  matches a b zero = some true
  matches a b (suc n) =
      let rest = matches (a + 1) (b + 1) n in
      and_then (get_elem? bytes a)
        λ x. and_then (get_elem? bytes b) λ y. if x == y then rest else some false

  -- `while (--head >= m)` from `head = m + r` on; the last value of `head`
  pub back_loop : ℕ → ℕ → Option ℕ
  back_loop m zero = some (sub_size m 1)
  back_loop m (suc r) =
      let rest = back_loop m r in
      and_then (get_elem? bytes r)
        λ x. and_then (get_elem? bytes (m + r)) λ y. if x == y then rest else some (m + r)

  -- `while (++tail < rh->size)` from the index `tail` on for at most `n` rounds
  pub forward_loop : ℕ → ℕ → ℕ → Option ℕ
  forward_loop m tail zero = some tail
  forward_loop m tail (suc n) =
      let rest = forward_loop m (tail + 1) n in
      and_then (get_elem? bytes (tail - m))
        λ x. and_then (get_elem? bytes tail) λ y. if x == y then rest else some tail

  -- `pcode_add_new(size, rh->data + a)`
  abbrev pub pcode_add_new : ℕ → ℕ → Pcode
  pcode_add_new size a = add_code size (slice bytes a size)

-- What the search has made so far.
pub record Found (S : Type 0) : Type 0 where
  pub arr : List ℕ
  pub hash : S
  pub tree : PieceTree

module _ {S : Type 0} (rh : Rolling S) (bytes : List ℕ) (s_window : ℕ) where
  -- `if (i % rh->s_window == 0) arr[i / rh->s_window] = h;`
  pub store : ℕ → ℕ → List ℕ → Option (List ℕ)
  store i h arr =
      if i % s_window == 0
      then if ltb (i / s_window) (length arr) then some (set arr (i / s_window) h) else none
      else some arr

  -- `h = rh->roll(rh);` and the store
  pub roll_step : ℕ → Found S → Option (ℕ × Found S)
  roll_step i st =
      and_then (rh.roll st.hash)
        λ r. and_then (store i r.0 st.arr) λ arr. some (r.0, record st { arr = arr; hash = r.1 })

  -- `while (++i < tail - rh->s_window + 1)`, from the index `i` on for `n` rounds
  pub roll_loop : ℕ → ℕ → Found S → Option (Found S)
  roll_loop zero i st = some st
  roll_loop (suc n) i st = and_then (roll_step i st) λ r. roll_loop n (i + 1) r.1

  -- The loop over `k`, from `k` on for `n` rounds: the first match, if there is one.
  pub find_match : ℕ → ℕ → ℕ → ℕ → List ℕ → Option (Option ℕ)
  find_match zero k i h arr = some none
  find_match (suc n) k i h arr =
      let rest = find_match n (k + 1) i h arr in
      and_then (get_elem? arr k) λ v.
        if h == v
        then and_then (matches bytes i (k * s_window) s_window)
            (λ b. if b then some (some k) else rest)
        else rest

  -- The rest of `lookback` after a match at `k`.
  pub take_match : ℕ → ℕ → Found S → Option (ℕ × Found S)
  take_match k i st =
      let m = i - k * s_window in
      let from = i + s_window in
      and_then (back_loop bytes m (k * s_window)) λ head.
        and_then (forward_loop bytes m from (length bytes - from)) λ tail.
          let key = add_size head 1 in
          let p = copy_code (sub_size (sub_size tail head) 1) (add_size (sub_size head m) 1) in
          and_then (rbtree_insert compare st.tree (piece key p)) λ tree.
            let rounds = tail - s_window + 1 - (i + 1) in
            and_then (roll_loop rounds (i + 1) (record st { tree = tree }))
              λ st'. some (i + 1 + rounds, st')

  pub lookback : ℕ → ℕ → Found S → Option (ℕ × Found S)
  lookback i h st =
      and_then (find_match (i / s_window) 0 i h st.arr)
        λ o. elim o [ none ↦ some (i + 1, st) | some k ↦ take_match k i st ]

  pub copies_loop : ℕ → ℕ → Found S → Option (Found S)
  copies_loop zero i st = none
  copies_loop (suc fuel) i st = elim (ltb i (length bytes - s_window + 1)) [
    | false ↦ some st
    | true ↦
        and_then (roll_step i st)
          λ r. and_then (lookback i r.0 r.1) λ next. copies_loop fuel next.0 next.1
  ]

  -- The tree of COPYs. `i` grows in every round, so the size of the data is enough fuel.
  pub find_copies : S → Option PieceTree
  find_copies s =
      let first = rh.init s in
      let arr = set (replicate (length bytes / s_window) 0) 0 first.0 in
      and_then
        (copies_loop (suc (length bytes)) 1
          (record { arr = arr; hash = first.1; tree = rbtree_create }))
        λ st. some st.tree

module _ (bytes : List ℕ) where
  -- `if (a < b)`: the bytes before a COPY
  pub fill : ℕ → ℕ → PieceTree → Option PieceTree
  fill a b tree =
      if ltb a b
      then rbtree_insert compare tree (piece a (pcode_add_new bytes (b - a) a))
      else some tree

  -- The walk along the COPYs. What is inserted stands before the node of the walk, so that the
  -- nodes behind are those of the tree as it was.
  pub fill_loop : List (Entry ℕ Pcode) → ℕ → PieceTree → Option (ℕ × PieceTree)
  fill_loop [] a tree = some (a, tree)
  fill_loop (e ∷ es) a tree =
      and_then (fill a e.key tree) λ tree'. fill_loop es (e.key + pcode_size e.attr) tree'

  -- From the tree of COPYs to the script.
  pub assemble : PieceTree → Option Script
  assemble tree = and_then (rbtree_for_each (tree.num_nodes) tree) λ copies.
      and_then (fill_loop copies 0 tree) λ filled.
        and_then (fill filled.0 (length bytes) filled.1) λ whole.
          and_then (rbtree_for_each whole.num_nodes whole)
            λ es. some (record { source = none; pcodes = map (λ e. e.attr) es })

-- Without a whole window there is no script.
pub diag_vcdiff_contract : {S : Type 0} → Rolling S → List ℕ → ℕ → S → Option Script
diag_vcdiff_contract rh bytes s_window s =
    if length bytes / s_window == 0
    then none
    else and_then (find_copies rh bytes s_window s) (assemble bytes)

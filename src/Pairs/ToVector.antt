-- ===== src/Pairs/ToVector.antt =====
-- `diag_list_to_vector` of src/list.c, and that the vector holds the sequence of the list.
use diagonal.Base.{
  ℕ, zero, suc, ◌+◌, ◌<◌, ◌^◌, ◌≡◌, refl, sym, ap, ap₂, ◌∙◌, Option, none, some, List, [], ◌∷◌,
  ◌++◌, map, arith, lt→ltb, length, length-append, length-map, length-take, length-drop, set, take,
  drop, append_assoc,
}
use diagonal.Base.Slices.{set_next, take-append-drop, take-append_left}
use diagonal.Base.Word.{size_mod, add_size}
use diagonal.Vector.{Vector, Outcome, vector_create, vector_set, IsValid, contents}
use diagonal.Vector.Laws.{vector_create-IsValid}
use diagonal.Pairs.{Pair, Heap, pair_at, diag_list_length}
use diagonal.Pairs.Lists.{IsList, diag_list_ref-element_of}

-- `fault` stands for a pair that is not there, and `stuck` for a loop that ran out of fuel.
unfoldable pub with_pair : Option Pair → (Pair → Outcome Vector) → Outcome Vector
with_pair none k = Outcome.fault
with_pair (some p) k = k p

unfoldable pub with_vector : Outcome Vector → (Vector → Outcome Vector) → Outcome Vector
with_vector (Outcome.ok v) k = k v
with_vector Outcome.fatal k = Outcome.fatal
with_vector Outcome.null k = Outcome.null
with_vector Outcome.fault k = Outcome.fault
with_vector Outcome.stuck k = Outcome.stuck

unfoldable pub vector_loop : Heap → ℕ → Option ℕ → ℕ → Vector → Outcome Vector
vector_loop heap fuel none i v = Outcome.ok v
vector_loop heap zero (some a) i v = Outcome.stuck
vector_loop heap (suc fuel) (some a) i v =
    with_pair (pair_at heap a)
      (λ p. with_vector (vector_set v i p.car) (vector_loop heap fuel p.cdr (add_size i 1)))

unfoldable pub vector_of : Option ℕ → (ℕ → Outcome Vector) → Outcome Vector
vector_of none k = Outcome.stuck
vector_of (some length) k = k length

unfoldable pub diag_list_to_vector : Heap → ℕ → Option ℕ → Outcome Vector
diag_list_to_vector heap fuel list =
    vector_of (diag_list_length heap fuel list)
      (λ length. with_vector (vector_create length) (vector_loop heap fuel list 0))

record Stored (v : Vector) (whole : List (Option ℕ)) (r : Outcome Vector) : Type 0 where
  filled : Vector
  result : r ≡ Outcome.ok filled
  as_is : (filled.size ≡ v.size) × (filled.capacity ≡ v.capacity)
  elements : filled.elements ≡ whole

vector_loop-Stored :
    (heap : Heap) (fuel : ℕ) (list : Option ℕ) (xs : List ℕ) (i : ℕ) (v : Vector)
    (p old : List (Option ℕ)) (tail : List (Option ℕ))
    → length xs < fuel
    → i + length xs < size_mod
    → IsList heap list xs
    → v.elements ≡ p ++ (old ++ tail)
    → i ≡ length p
    → length old ≡ length xs
    → Stored v (p ++ (map some xs ++ tail)) (vector_loop heap fuel list i v)
unfolding vector_loop with_pair with_vector vector_set IsList
vector_loop-Stored heap zero list xs i v p old tail enough fits l e at same = absurd (omega arith)
vector_loop-Stored heap (suc fuel) list [] i v p [] tail enough fits l e at same = record {
  filled = v;
  result = rw l;
  as_is = (refl, refl);
  elements = e;
}
vector_loop-Stored heap (suc fuel) list [] i v p (o ∷ old) tail enough fits l e at same =
    absurd (omega (arith, same))
vector_loop-Stored heap (suc fuel) list (x ∷ xs) i v p [] tail enough fits l e at same =
    absurd (omega (arith, same))
vector_loop-Stored heap (suc fuel) list (x ∷ xs) i v p (o ∷ old) tail enough fits
      (a, rest, link, found, l) e at same =
    let v' : Vector = record v { elements = set v.elements i (some x) } in
    let inside : i < length v.elements =
      omega (arith, ap length e, length-append p (o ∷ (old ++ tail)), at) in
    let next : add_size i 1 ≡ i + 1 = omega (arith, fits) in
    let q = p ++ (some x ∷ []) in
    let stored : set v.elements i (some x) ≡ q ++ (old ++ tail) =
      ap (λ k. set k i (some x)) e ∙ set_next p (old ++ tail) o (some x) i at in
    let more =
      vector_loop-Stored heap fuel rest xs (i + 1) v' q old tail (omega (arith, enough))
        (omega (arith, fits)) l stored (omega (arith, at, length-append p (some x ∷ [])))
        (omega (arith, same)) in
    let later : vector_loop heap fuel rest (add_size i 1) v' ≡ Outcome.ok more.filled =
      ap (λ k. vector_loop heap fuel rest k v') next ∙ more.result in
    record {
      filled = more.filled;
      result = rw (link, found, lt→ltb i (length v.elements) inside) later;
      as_is = more.as_is;
      elements = more.elements ∙ append_assoc p (some x ∷ []) (map some xs ++ tail);
    }

-- With fuel above the length, the vector made from a list of less than 2^60 pairs is valid and holds
-- the sequence of the list.
pub diag_list_to_vector-contents :
    (heap : Heap) (fuel : ℕ) (list : Option ℕ) (xs : List ℕ)
    → length xs < fuel
    → length xs < 2 ^ 60
    → IsList heap list xs
    → (v : Vector) × (diag_list_to_vector heap fuel list ≡ Outcome.ok v)
      × IsValid v
      × (contents v ≡ map some xs)
unfolding diag_list_to_vector vector_of with_vector
diag_list_to_vector-contents heap fuel list xs enough fits l =
    let (w, made, valid, sized, small) = vector_create-IsValid (length xs) fits in
    let here = take (length xs) w.elements in
    let tail = drop (length xs) w.elements in
    let room = valid.block_size in
    let short : length here ≡ length xs =
      omega (arith, length-take (length xs) w.elements, room, valid.within, sized) in
    let s =
      vector_loop-Stored heap fuel list xs 0 w [] here tail enough (omega (arith, fits)) l
        (sym (take-append-drop (length xs) w.elements)) refl short in
    let (e, capacity) = s.as_is in
    (
      s.filled,
      rw ((diag_list_ref-element_of heap fuel list xs 0 enough (omega (arith, fits)) l).0, made)
          s.result,
      record {
        block_size = omega (
          arith,
          ap length s.elements,
          length-append (map some xs) tail,
          length-map some xs,
          length-drop (length xs) w.elements,
          room,
          capacity,
          valid.within,
          sized,
        );
        within = omega (arith, e, capacity, valid.within);
        positive = omega (arith, capacity, valid.positive);
        bounded = omega (arith, capacity, valid.bounded);
      },
      ap₂ take (e ∙ sized) s.elements
          ∙ take-append_left (map some xs) tail (length xs) (sym (length-map some xs)),
    )

-- ===== src/Pairs/Lists.antt =====
-- What the operations do to the sequence that a list stands for.
use diagonal.Base.{
  ℕ, zero, suc, ◌+◌, ◌<◌, ◌≡◌, refl, ap, ◌∙◌, Option, none, some, List, [], ◌∷◌, ◌++◌, arith,
  length,
}
use diagonal.Base.Word.{size_mod, add_size}
use diagonal.Pairs.{
  Pair, Heap, Element, pair_at, diag_pair_create, length_loop, diag_list_length, ref_loop,
  diag_list_ref, reverse_loop, diag_list_reverse,
}

-- `list` points to the first of the pairs whose cars are `xs`.
unfoldable pub IsList : Heap → Option ℕ → List ℕ → Type 0
IsList heap list [] = list ≡ none
IsList heap list (x ∷ xs) =
    (a : ℕ) × (rest : Option ℕ) × (list ≡ some a)
    × (pair_at heap a ≡ some (record { car = x; cdr = rest }))
    × IsList heap rest xs

-- The cars in the other order, before `ys`.
pub reversed : List ℕ → List ℕ → List ℕ
reversed [] ys = ys
reversed (x ∷ xs) ys = reversed xs (x ∷ ys)

pair_at-created : (heap : Heap) (p : Pair) → pair_at (heap ++ (some p ∷ [])) (length heap) ≡ some p
unfolding pair_at
pair_at-created [] p = refl
pair_at-created (c ∷ heap) p = pair_at-created heap p

pair_at-kept :
    (heap : Heap) (new : Option Pair) (a : ℕ) (p : Pair)
    → pair_at heap a ≡ some p
    → pair_at (heap ++ (new ∷ [])) a ≡ some p
unfolding pair_at
pair_at-kept [] new a p h = ground arith
pair_at-kept (c ∷ heap) new zero p h = h
pair_at-kept (c ∷ heap) new (suc a) p h = pair_at-kept heap new a p h

IsList_kept :
    (heap : Heap) (new : Option Pair) (list : Option ℕ) (xs : List ℕ)
    → IsList heap list xs
    → IsList (heap ++ (new ∷ [])) list xs
unfolding IsList
IsList_kept heap new list [] h = h
IsList_kept heap new list (x ∷ xs) (a, rest, e, at, l) = (
  a,
  rest,
  e,
  pair_at-kept heap new a (record { car = x; cdr = rest }) at,
  IsList_kept heap new rest xs l,
)

length_loop-length :
    (heap : Heap) (fuel : ℕ) (list : Option ℕ) (xs : List ℕ) (s : ℕ)
    → length xs < fuel
    → s + length xs < size_mod
    → IsList heap list xs
    → length_loop heap fuel list s ≡ some (s + length xs)
unfolding length_loop IsList
length_loop-length heap zero list xs s enough fits l = absurd (omega arith)
length_loop-length heap (suc fuel) list [] s enough fits l = rw l (ap some (omega arith))
length_loop-length heap (suc fuel) list (x ∷ xs) s enough fits (a, rest, e, at, l) =
    let next : add_size s 1 ≡ s + 1 = omega (arith, fits) in
    rw (e, at, next)
      (length_loop-length heap fuel rest xs (s + 1) (omega (arith, enough)) (omega (arith, fits)) l
        ∙ ap some (omega arith))

-- What is at an index of the sequence.
pub element_of : List ℕ → ℕ → Element → Element
element_of [] i null = null
element_of (x ∷ xs) zero null = Element.element x
element_of (x ∷ xs) (suc i) null = element_of xs i Element.exceed_list_length

ref_loop-element_of :
    (heap : Heap) (list : Option ℕ) (xs : List ℕ) (i : ℕ) (null : Element)
    → IsList heap list xs
    → ref_loop heap i list null ≡ some (element_of xs i null)
unfolding ref_loop IsList element_of
ref_loop-element_of heap list [] zero null l = rw l
ref_loop-element_of heap list [] (suc i) null l = rw l
ref_loop-element_of heap list (x ∷ xs) zero null (a, rest, e, at, l) = rw (e, at)
ref_loop-element_of heap list (x ∷ xs) (suc i) null (a, rest, e, at, l) =
    rw (e, at) (ref_loop-element_of heap rest xs i Element.exceed_list_length l)

record IsReversed (heap : Heap) (list : Option ℕ) (xs ys : List ℕ) (r : Option (Option ℕ × Heap))
    : Type 0 where
  built : Option ℕ
  after : Heap
  result : r ≡ some (built, after)
  new : IsList after built ys
  old : IsList after list xs

reverse_loop-IsReversed :
    (fuel : ℕ) (heap : Heap) (kept list p : Option ℕ) (all xs ys : List ℕ)
    → length xs < fuel
    → IsList heap kept all
    → IsList heap list xs
    → IsList heap p ys
    → IsReversed heap kept all (reversed xs ys) (reverse_loop fuel list p heap)
unfolding reverse_loop IsList reversed diag_pair_create
reverse_loop-IsReversed zero heap kept list p all xs ys enough k l q = absurd (omega arith)
reverse_loop-IsReversed (suc fuel) heap kept list p all [] ys enough k l q = record {
  built = p;
  after = heap;
  result = rw l;
  new = q;
  old = k;
}
reverse_loop-IsReversed (suc fuel) heap kept list p all (x ∷ xs) ys enough k (a, rest, e, at, l) q =
    let pair : Pair = record { car = x; cdr = p } in
    let more =
      reverse_loop-IsReversed fuel (heap ++ (some pair ∷ [])) kept rest (some (length heap)) all xs
        (x ∷ ys) (omega (arith, enough)) (IsList_kept heap (some pair) kept all k)
        (IsList_kept heap (some pair) rest xs l)
        (length heap, p, refl, pair_at-created heap pair, IsList_kept heap (some pair) p ys q) in
    record {
      built = more.built;
      after = more.after;
      result = rw (e, at) more.result;
      new = more.new;
      old = more.old;
    }

-- With fuel above the length, the length and every element of a list are those of its sequence (a
-- list of less than 2^64 pairs), and the message tells an empty list from an index past the end.
pub diag_list_ref-element_of :
    (heap : Heap) (fuel : ℕ) (list : Option ℕ) (xs : List ℕ) (i : ℕ)
    → length xs < fuel
    → length xs < size_mod
    → IsList heap list xs
    → (diag_list_length heap fuel list ≡ some (length xs))
      × (diag_list_ref heap list i ≡ some (element_of xs i Element.list_is_null))
unfolding diag_list_length diag_list_ref
diag_list_ref-element_of heap fuel list xs i enough fits l = (
  length_loop-length heap fuel list xs 0 enough (omega (arith, fits)) l ∙ ap some (omega arith),
  ref_loop-element_of heap list xs i Element.list_is_null l,
)

-- With fuel above the length, reversing a list builds the list of the other order, and leaves the
-- list itself as it is.
pub diag_list_reverse-IsList :
    (heap : Heap) (fuel : ℕ) (list : Option ℕ) (xs : List ℕ)
    → length xs < fuel
    → IsList heap list xs
    → (built : Option ℕ) × (after : Heap) × (diag_list_reverse fuel list heap ≡ some (built, after))
      × IsList after built (reversed xs [])
      × IsList after list xs
unfolding diag_list_reverse IsList
diag_list_reverse-IsList heap fuel list xs enough l =
    let r = reverse_loop-IsReversed fuel heap list list none xs xs [] enough l l refl in
    (r.built, r.after, r.result, r.new, r.old)

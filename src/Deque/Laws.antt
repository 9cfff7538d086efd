-- ===== src/Deque/Laws.antt =====
-- The operations on deques against sequences.
use diagonal.Base.{
  ℕ, ◌+◌, ◌<◌, ◌≡◌, refl, sym, ap, ◌∙◌, Option, none, some, List, [], ◌∷◌, ◌++◌, arith, All, length,
  get_elem?, true, false, ◌==◌,
}
use diagonal.Base.Word.{size_mod, add_size}
use mathlib.Core.List.{reverse, reverse_aux, reverse-reverse}
use diagonal.Deque.{
  Pointer, DequeElem, Deque, Heap, Side, at_first, at_last, opposite, end_of, put_end, link,
  new_elem, write_link, After, deque_add,
}
use diagonal.Deque.Chain.{
  Cell, head_of, last_of, Chain, IsApart, IsDistinct, Chain-reverse, Chain-append, Chain-IsApart,
  Chain-Relinked,
}

pub length-reverse_aux : (xs ys : List Cell) → length (reverse_aux xs ys) ≡ length xs + length ys
length-reverse_aux [] ys = omega arith
length-reverse_aux (x ∷ xs) ys = omega (arith, length-reverse_aux xs (x ∷ ys))

head_of-reverse_aux :
    (x : Cell) (xs ys : List Cell) → head_of (reverse_aux (x ∷ xs) ys) ≡ last_of (x ∷ xs)
head_of-reverse_aux x [] ys = refl
head_of-reverse_aux x (y ∷ xs) ys = head_of-reverse_aux y xs (x ∷ ys)

pub head_of-reverse : (xs : List Cell) → head_of (reverse xs) ≡ last_of xs
head_of-reverse [] = refl
head_of-reverse (x ∷ xs) = head_of-reverse_aux x xs []

last_of-reverse : (xs : List Cell) → last_of (reverse xs) ≡ head_of xs
last_of-reverse xs = sym (head_of-reverse (reverse xs)) ∙ ap head_of (reverse-reverse xs)

-- All of `xs` are apart from all of `ys`.
abbrev pub AreApart : List Cell → List Cell → Type 0
AreApart xs ys = All (λ (x : Cell). IsApart x.0 ys) xs

IsDistinct-reverse_aux :
    (xs ys : List Cell)
    → IsDistinct xs
    → IsDistinct ys
    → AreApart xs ys
    → IsDistinct (reverse_aux xs ys)
IsDistinct-reverse_aux [] ys d d' apart = d'
IsDistinct-reverse_aux (x ∷ xs) ys (h, d) d' (a, apart) =
    IsDistinct-reverse_aux xs (x ∷ ys) d (a, d') (extend xs h apart)
  where
    extend : (zs : List Cell) → IsApart x.0 zs → AreApart zs ys → AreApart zs (x ∷ ys)
    extend [] g b = tt
    extend (z ∷ zs) (g, gs) (b, bs) = (((λ e. g (sym e)), b), extend zs gs bs)

pub AreApart-reverse_aux :
    (xs ys zs : List Cell) → AreApart xs zs → AreApart ys zs → AreApart (reverse_aux xs ys) zs
AreApart-reverse_aux [] ys zs a b = b
AreApart-reverse_aux (x ∷ xs) ys zs (h, a) b = AreApart-reverse_aux xs (x ∷ ys) zs a (h, b)

AreApart-nil : (xs : List Cell) → AreApart xs []
AreApart-nil [] = tt
AreApart-nil (x ∷ xs) = (tt, AreApart-nil xs)

-- A deque that holds the cells `xs`, read from the end `s`.
pub record IsDeque (s : Side) (heap : Heap) (d : Deque) (xs : List Cell) : Type 0 where
  pub outer : end_of s d ≡ head_of xs
  pub inner : end_of (opposite s) d ≡ last_of xs
  pub counted : d.length ≡ length xs
  pub chain : Chain s heap none xs
  pub distinct : IsDistinct xs

end_of-opposite : (s : Side) (d : Deque) → end_of (opposite (opposite s)) d ≡ end_of s d
end_of-opposite at_first d = refl
end_of-opposite at_last d = refl

pub IsDeque-reverse :
    (s : Side) (heap : Heap) (d : Deque) (xs : List Cell)
    → IsDeque s heap d xs
    → IsDeque (opposite s) heap d (reverse xs)
IsDeque-reverse s heap d xs h = record {
  outer = h.inner ∙ sym (head_of-reverse xs);
  inner = end_of-opposite s d ∙ h.outer ∙ sym (last_of-reverse xs);
  counted = omega (arith, h.counted, length-reverse_aux xs []);
  chain = Chain-reverse s heap xs h.chain;
  distinct = IsDistinct-reverse_aux xs [] h.distinct tt (AreApart-nil xs);
}

-- What is left alone: the chains apart from `xs`.
abbrev pub Keeps : Heap → List Cell → Heap → Type 0
Keeps heap xs heap' =
    (t : Side) (p : Pointer) (ys : List Cell)
    → AreApart xs ys
    → Chain t heap p ys
    → Chain t heap' p ys

-- An operation at the end `s` succeeds, leaves a deque that holds `ys`, leaves other deques as they
-- are, and returns the address `elem`.
pub record Leaves (s : Side) (heap : Heap) (xs ys : List Cell) (elem : Pointer) (o : Option After)
    : Type 1 where
  pub after : After
  pub succeeds : o ≡ some after
  pub deque : IsDeque s after.heap after.deque ys
  pub returned : after.elem ≡ elem
  pub keeps : Keeps heap xs after.heap

pub end_of-put_end : (s : Side) (p : Pointer) (d : Deque) → end_of s (put_end s p d) ≡ p
end_of-put_end at_first p d = refl
end_of-put_end at_last p d = refl

pub end_of-put_other :
    (s : Side) (p : Pointer) (d : Deque)
    → end_of (opposite s) (put_end s p d) ≡ end_of (opposite s) d
end_of-put_other at_first p d = refl
end_of-put_other at_last p d = refl

get_elem?-append_new :
    (heap : Heap) (f : DequeElem) → get_elem? (heap ++ (f ∷ [])) (length heap) ≡ some f
get_elem?-append_new [] f = refl
get_elem?-append_new (g ∷ heap) f = get_elem?-append_new heap f

new_elem_attr : (s : Side) (attr : ℕ) (tmp : Pointer) → (new_elem s attr tmp).attr ≡ attr
new_elem_attr at_first attr tmp = refl
new_elem_attr at_last attr tmp = refl

new_elem_outer : (s : Side) (attr : ℕ) (tmp : Pointer) → link s (new_elem s attr tmp) ≡ none
new_elem_outer at_first attr tmp = refl
new_elem_outer at_last attr tmp = refl

new_elem_inner :
    (s : Side) (attr : ℕ) (tmp : Pointer) → link (opposite s) (new_elem s attr tmp) ≡ tmp
new_elem_inner at_first attr tmp = refl
new_elem_inner at_last attr tmp = refl

AreApart-IsApart : (x : Cell) (xs ys : List Cell) → AreApart (x ∷ xs) ys → IsApart x.0 ys
AreApart-IsApart x xs ys h = h.0

put_end-length : (s : Side) (p : Pointer) (d : Deque) → (put_end s p d).length ≡ d.length
put_end-length at_first p d = refl
put_end-length at_last p d = refl

-- The record update of the count leaves the ends.
pub end_of-record : (s : Side) (d : Deque) (n : ℕ) → end_of s (record d { length = n }) ≡ end_of s d
end_of-record at_first d n = refl
end_of-record at_last d n = refl

pub deque_add-Leaves :
    (s : Side) (heap : Heap) (d : Deque) (attr : ℕ) (xs : List Cell)
    → IsDeque s heap d xs
    → length xs + 1 < size_mod
    → Leaves s heap xs ((length heap, attr) ∷ xs) (some (length heap)) (deque_add s heap d attr)
unfolding deque_add
deque_add-Leaves s heap d attr [] h fits =
    let n = length heap in
    let f = new_elem s attr (end_of s d) in
    let d' = put_end s (some n) (put_end (opposite s) (some n) d) in
    let empty : (d.length == 0) ≡ true = ground (arith, h.counted) in
    record {
      after = record {
        heap = heap ++ (f ∷ []);
        deque = record d' { length = add_size d.length 1 };
        elem = some n;
      };
      succeeds = rw empty;
      deque = record {
        outer = end_of-record s d' _ ∙ end_of-put_end s (some n) (put_end (opposite s) (some n) d);
        inner =
            end_of-record (opposite s) d' _
            ∙ end_of-put_other s (some n) (put_end (opposite s) (some n) d)
            ∙ end_of-put_end (opposite s) (some n) d;
        counted = omega (arith, h.counted);
        chain = (
          (
            f,
            get_elem?-append_new heap f,
            new_elem_attr s attr (end_of s d),
            new_elem_outer s attr (end_of s d),
            new_elem_inner s attr (end_of s d) ∙ h.outer,
          ),
          tt,
        );
        distinct = (tt, tt);
      };
      returned = refl;
      keeps = λ t p ys apart c. Chain-append t heap p ys f c;
    }
deque_add-Leaves s heap d attr (x ∷ xs) h fits =
    let n = length heap in
    let f = new_elem s attr (end_of s d) in
    let fresh = Chain-IsApart s heap none (x ∷ xs) h.chain in
    let relinked =
      Chain-Relinked s (heap ++ (f ∷ [])) none (some n) x xs h.distinct.0
        (Chain-append s heap none (x ∷ xs) f h.chain) in
    let d' = put_end s (some n) d in
    let more : (d.length == 0) ≡ false = ground (arith, h.counted) in
    let written = ap (λ q. write_link s (heap ++ (f ∷ [])) q (some n)) h.outer ∙ relinked.written in
    record {
      after = record {
        heap = relinked.heap';
        deque = record d' { length = add_size d.length 1 };
        elem = some n;
      };
      succeeds = rw (more, written);
      deque = record {
        outer = end_of-record s d' _ ∙ end_of-put_end s (some n) d;
        inner = end_of-record (opposite s) d' _ ∙ end_of-put_other s (some n) d ∙ h.inner;
        counted = omega (arith, h.counted, fits);
        chain = (
          (
            f,
            relinked.reads n f (λ e. fresh.0 (sym e)) (get_elem?-append_new heap f),
            new_elem_attr s attr (end_of s d),
            new_elem_outer s attr (end_of s d),
            new_elem_inner s attr (end_of s d) ∙ h.outer,
          ),
          relinked.chain,
        );
        distinct = (fresh, h.distinct);
      };
      returned = refl;
      keeps = λ t p ys apart c. relinked.others t p ys apart.0 (Chain-append t heap p ys f c);
    }

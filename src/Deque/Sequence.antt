-- ===== src/Deque/Sequence.antt =====
-- The four operations at the ends of a deque, against its sequence from the first to the last.
use diagonal.Base.{
  ℕ, ◌+◌, ◌<◌, ◌≡◌, refl, ap, ◌∙◌, subst, Option, none, some, List, [], ◌∷◌, ◌++◌, arith, length,
  true, false, ◌==◌,
}
use diagonal.Base.Word.{size_mod, sub_size}
use mathlib.Core.List.{reverse, reverse_aux, reverse-reverse, reverse-cons}
use diagonal.Deque.{
  Pointer, Deque, Heap, Side, at_first, at_last, opposite, end_of, put_end, write_link, After,
  same_pointer, read_link, deque_remove, deque_push, deque_pop, deque_shift, deque_unshift,
}
use diagonal.Deque.Chain.{Cell, head_of, last_of, Chain, Chain-Relinked}
use diagonal.Deque.Laws.{
  AreApart-reverse_aux, IsDeque, IsDeque-reverse, Leaves, deque_add-Leaves, end_of-put_end,
  end_of-put_other, end_of-record, length-reverse_aux, head_of-reverse,
}

abbrev pub rest : List Cell → List Cell
rest [] = []
rest (x ∷ xs) = xs

abbrev pub without_last : List Cell → List Cell
without_last [] = []
without_last (x ∷ []) = []
without_last (x ∷ y ∷ ys) = x ∷ without_last (y ∷ ys)

read_link-next :
    (s : Side) (heap : Heap) (p : Pointer) (x : Cell) (xs : List Cell)
    → Chain s heap p (x ∷ xs)
    → read_link s heap (some x.0) ≡ head_of xs
unfolding read_link
read_link-next s heap p x xs ((e, at, attr, back, on), c) = rw (at, read_link) on

deque_remove-Leaves :
    (s : Side) (heap : Heap) (d : Deque) (xs : List Cell)
    → IsDeque s heap d xs
    → length xs < size_mod
    → Leaves s heap xs (rest xs) (head_of xs) (deque_remove s heap d)
unfolding deque_remove
deque_remove-Leaves s heap d [] h fits =
    let empty : (d.length == 0) ≡ true = ground (arith, h.counted) in
    record {
      after = record { heap = heap; deque = d; elem = none };
      succeeds = rw (empty, h.outer);
      deque = h;
      returned = refl;
      keeps = λ t p ys apart c. c;
    }
deque_remove-Leaves s heap d (x ∷ []) h fits =
    let more : (d.length == 0) ≡ false = ground (arith, h.counted) in
    let one : (d.length == 1) ≡ true = ground (arith, h.counted) in
    let same : same_pointer (end_of s d) (end_of (opposite s) d) ≡ true =
      rw (h.outer, h.inner) (ground arith) in
    let d' = put_end s none (put_end (opposite s) none d) in
    record {
      after = record {
        heap = heap;
        deque = record d' { length = sub_size d.length 1 };
        elem = end_of s d;
      };
      succeeds = rw (more, one, same);
      deque = record {
        outer = end_of-record s d' _ ∙ end_of-put_end s none (put_end (opposite s) none d);
        inner =
            end_of-record (opposite s) d' _
            ∙ end_of-put_other s none (put_end (opposite s) none d)
            ∙ end_of-put_end (opposite s) none d;
        counted = omega (arith, h.counted);
        chain = tt;
        distinct = tt;
      };
      returned = h.outer;
      keeps = λ t p ys apart c. c;
    }
deque_remove-Leaves s heap d (x ∷ y ∷ ys) h fits =
    let more : (d.length == 0) ≡ false = ground (arith, h.counted) in
    let several : (d.length == 1) ≡ false = ground (arith, h.counted) in
    let tmp = read_link s heap (end_of s d) in
    let next : tmp ≡ some y.0 =
      ap (read_link s heap) h.outer ∙ read_link-next s heap none x (y ∷ ys) h.chain in
    let r = Chain-Relinked s heap (some x.0) none y ys h.distinct.1.0 h.chain.1 in
    let written = ap (λ q. write_link s heap q none) next ∙ r.written in
    let d' = put_end s tmp d in
    record {
      after = record {
        heap = r.heap';
        deque = record d' { length = sub_size d.length 1 };
        elem = end_of s d;
      };
      succeeds = rw (more, several, written);
      deque = record {
        outer = end_of-record s d' _ ∙ end_of-put_end s tmp d ∙ next;
        inner = end_of-record (opposite s) d' _ ∙ end_of-put_other s tmp d ∙ h.inner;
        counted = omega (arith, h.counted, fits);
        chain = r.chain;
        distinct = h.distinct.1;
      };
      returned = h.outer;
      keeps = λ t p zs apart c. r.others t p zs apart.1.0 c;
    }

-- What an operation does at the last end, read from the first.
Leaves-turn :
    (heap : Heap) (xs ys : List Cell) (elem : Pointer) (o : Option After)
    → Leaves at_last heap (reverse xs) ys elem o
    → Leaves at_first heap xs (reverse ys) elem o
Leaves-turn heap xs ys elem o l = record {
  after = l.after;
  succeeds = l.succeeds;
  deque = IsDeque-reverse at_last l.after.heap l.after.deque ys l.deque;
  returned = l.returned;
  keeps = λ t p zs apart c. l.keeps t p zs (AreApart-reverse_aux xs [] zs apart tt) c;
}

rest-reverse_aux :
    (x : Cell) (xs ys : List Cell)
    → rest (reverse_aux (x ∷ xs) ys) ≡ reverse_aux (without_last (x ∷ xs)) ys
rest-reverse_aux x [] ys = refl
rest-reverse_aux x (y ∷ xs) ys = rest-reverse_aux y xs (x ∷ ys)

rest-reverse : (xs : List Cell) → reverse (rest (reverse xs)) ≡ without_last xs
rest-reverse [] = refl
rest-reverse (x ∷ xs) =
    ap reverse (rest-reverse_aux x xs []) ∙ reverse-reverse (without_last (x ∷ xs))

length-reverse : (xs : List Cell) → length (reverse xs) ≡ length xs
length-reverse xs = omega (arith, length-reverse_aux xs [])

-- `push` puts a new element behind the others and `unshift` before them, both return it, and other
-- deques in the heap stay as they are, if there is room for the count.
pub deque_push-Leaves :
    (heap : Heap) (d : Deque) (attr : ℕ) (xs : List Cell)
    → IsDeque at_first heap d xs
    → length xs + 1 < size_mod
    → Leaves at_first heap xs
        (xs ++ ((length heap, attr) ∷ []))
        (some (length heap))
        (deque_push heap d attr)
      × Leaves at_first heap xs
          ((length heap, attr) ∷ xs)
          (some (length heap))
          (deque_unshift heap d attr)
deque_push-Leaves heap d attr xs h fits = (
  subst (λ ys. Leaves at_first heap xs ys (some (length heap)) (deque_push heap d attr))
      (reverse-cons _ (reverse xs)
        ∙ ap (λ ys. ys ++ ((length heap, attr) ∷ [])) (reverse-reverse xs))
      (Leaves-turn heap xs _ _ _ (
        deque_add-Leaves at_last heap d attr (reverse xs) (IsDeque-reverse at_first heap d xs h)
          (omega (arith, fits, length-reverse xs)))),
  deque_add-Leaves at_first heap d attr xs h fits,
)

-- `pop` takes the last element off a deque and returns it, and `shift` the first one; an empty deque
-- stays empty and NULL is returned. Other deques in the heap stay as they are.
pub deque_pop-Leaves :
    (heap : Heap) (d : Deque) (xs : List Cell)
    → IsDeque at_first heap d xs
    → length xs < size_mod
    → Leaves at_first heap xs (without_last xs) (last_of xs) (deque_pop heap d)
      × Leaves at_first heap xs (rest xs) (head_of xs) (deque_shift heap d)
deque_pop-Leaves heap d xs h fits = (
  subst (λ ys. Leaves at_first heap xs ys (last_of xs) (deque_pop heap d)) (rest-reverse xs)
      (subst (λ q. Leaves at_first heap xs (reverse (rest (reverse xs))) q (deque_pop heap d))
        (head_of-reverse xs)
        (Leaves-turn heap xs _ _ _ (
          deque_remove-Leaves at_last heap d (reverse xs) (IsDeque-reverse at_first heap d xs h)
            (omega (arith, fits, length-reverse xs))))),
  deque_remove-Leaves at_first heap d xs h fits,
)

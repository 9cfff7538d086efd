-- ===== src/Deque/Append.antt =====
-- `diag_deque_append` joins two deques of one heap.
use diagonal.Base.{
  ℕ, ◌+◌, ◌<◌, ◌≡◌, refl, sym, ap, ap₂, ◌∙◌, subst, Option, none, some, List, [], ◌∷◌, ◌++◌, arith,
  length, true, false, ◌==◌, append-nil, length-append, inl, inr, ◌⊎◌,
}
use diagonal.Base.Word.{size_mod, add_size}
use mathlib.Core.List.{reverse, reverse_aux, reverse-reverse, reverse_aux-eq}
use diagonal.Deque.{
  Pointer, Deque, Heap, Side, at_first, at_last, deque_new, Joined, join_links, deque_append,
}
use diagonal.Deque.Chain.{
  Cell, last_of, Chain, Chain-reverse_aux, IsApart, IsDistinct, Chain-Relinked,
}
use diagonal.Deque.Laws.{
  AreApart, AreApart-reverse_aux, IsDeque-reverse, IsDeque, length-reverse_aux,
}

-- The joined deque holds both sequences, the other is empty, and deques apart from both stay as they
-- are.
pub record Joins (heap : Heap) (xs ys : List Cell) (o : Option Joined) : Type 1 where
  pub joined : Joined
  pub succeeds : o ≡ some joined
  pub head : IsDeque at_first joined.heap joined.head (xs ++ ys)
  pub tail : IsDeque at_first joined.heap joined.tail []
  pub keeps :
      (t : Side) (p : Pointer) (zs : List Cell)
      → AreApart xs zs
      → AreApart ys zs
      → Chain t heap p zs
      → Chain t joined.heap p zs

empty-IsDeque : (heap : Heap) → IsDeque at_first heap deque_new []
empty-IsDeque heap = record {
  outer = refl;
  inner = refl;
  counted = refl;
  chain = tt;
  distinct = tt;
}

IsApart-append : (a : ℕ) (xs ys : List Cell) → IsApart a xs → IsApart a ys → IsApart a (xs ++ ys)
IsApart-append a [] ys h k = k
IsApart-append a (x ∷ xs) ys (b, h) k = (b, IsApart-append a xs ys h k)

IsDistinct-append :
    (xs ys : List Cell) → IsDistinct xs → IsDistinct ys → AreApart xs ys → IsDistinct (xs ++ ys)
IsDistinct-append [] ys d d' a = d'
IsDistinct-append (x ∷ xs) ys (h, d) d' (b, a) =
    (IsApart-append x.0 xs ys h b, IsDistinct-append xs ys d d' a)

-- Apart the other way round.
IsApart-AreApart : (y : Cell) (xs ys : List Cell) → AreApart xs (y ∷ ys) → IsApart y.0 xs
IsApart-AreApart y [] ys a = tt
IsApart-AreApart y (x ∷ xs) ys ((h, hs), a) = ((λ e. h (sym e)), IsApart-AreApart y xs ys a)

last_of-append :
    (xs : List Cell) (y : Cell) (ys : List Cell) → last_of (xs ++ (y ∷ ys)) ≡ last_of (y ∷ ys)
last_of-append [] y ys = refl
last_of-append (x ∷ []) y ys = refl
last_of-append (x ∷ z ∷ xs) y ys = last_of-append (z ∷ xs) y ys

-- Writing both links between the last element `l` of one chain and the first one of another.
record Linked (heap : Heap) (l : Cell) (r : List Cell) (y : Cell) (ys : List Cell) : Type 1 where
  heap' : Heap
  links : join_links heap (some l.0) (some y.0) ≡ some heap'
  chain : Chain at_first heap' none (reverse_aux (l ∷ r) (y ∷ ys))
  others :
      (t : Side) (p : Pointer) (zs : List Cell)
      → IsApart l.0 zs
      → IsApart y.0 zs
      → Chain t heap p zs
      → Chain t heap' p zs

join_links-Linked :
    (heap : Heap) (l : Cell) (r : List Cell) (y : Cell) (ys : List Cell)
    → Chain at_last heap none (l ∷ r)
    → Chain at_first heap none (y ∷ ys)
    → IsDistinct (l ∷ r)
    → IsDistinct (y ∷ ys)
    → AreApart (l ∷ r) (y ∷ ys)
    → Linked heap l r y ys
unfolding join_links
join_links-Linked heap l r y ys c d distinct distinct' apart =
    let first = Chain-Relinked at_last heap none (some y.0) l r distinct.0 c in
    let d' = first.others at_first none (y ∷ ys) apart.0 d in
    let second = Chain-Relinked at_first first.heap' none (some l.0) y ys distinct'.0 d' in
    let c' =
      second.others at_last (some y.0) (l ∷ r) (IsApart-AreApart y (l ∷ r) ys apart) first.chain in
    record {
      heap' = second.heap';
      links = rw (join_links, first.written, second.written);
      chain = Chain-reverse_aux at_last second.heap' (l ∷ r) (y ∷ ys) c' second.chain;
      others = λ t p zs h k e. second.others t p zs k (first.others t p zs h e);
    }

List-cases : (xs : List Cell) → (xs ≡ []) ⊎ ((l : Cell) × (r : List Cell) × (xs ≡ l ∷ r))
List-cases [] = inl refl
List-cases (x ∷ xs) = inr (x, xs, refl)

-- Joining two deques without a common element succeeds: the first holds both sequences, the second
-- is empty, and deques apart from both stay as they are, if there is room for the count.
pub deque_append-Joins :
    (heap : Heap) (head tail : Deque) (xs ys : List Cell)
    → IsDeque at_first heap head xs
    → IsDeque at_first heap tail ys
    → AreApart xs ys
    → length xs + length ys < size_mod
    → Joins heap xs ys (deque_append heap head tail)
unfolding deque_append
deque_append-Joins heap head tail xs [] h k apart fits =
    let empty : (tail.length == 0) ≡ true = ground (arith, k.counted) in
    record {
      joined = record { heap = heap; head = head; tail = tail };
      succeeds = rw empty;
      head = subst (IsDeque at_first heap head) (sym (append-nil xs)) h;
      tail = k;
      keeps = λ t p zs a b c. c;
    }
deque_append-Joins heap head tail [] (y ∷ ys) h k apart fits =
    let more : (tail.length == 0) ≡ false = ground (arith, k.counted) in
    let empty : (head.length == 0) ≡ true = ground (arith, h.counted) in
    record {
      joined = record { heap = heap; head = tail; tail = deque_new };
      succeeds = rw (more, empty);
      head = k;
      tail = empty-IsDeque heap;
      keeps = λ t p zs a b c. c;
    }
deque_append-Joins heap head tail (x ∷ xs) (y ∷ ys) h k apart fits =
    elim (List-cases (reverse (x ∷ xs))) [
      | inl none_left ↦ absurd (absent (ap length none_left))
      | inr (l, r, back) ↦
          let more : (tail.length == 0) ≡ false = ground (arith, k.counted) in
          let more' : (head.length == 0) ≡ false = ground (arith, h.counted) in
          let turned =
            subst (IsDeque at_last heap head) back
              (IsDeque-reverse at_first heap head (x ∷ xs) h) in
          let apart' =
            subst (λ zs. AreApart zs (y ∷ ys)) back
              (AreApart-reverse_aux (x ∷ xs) [] (y ∷ ys) apart tt) in
          let linked =
            join_links-Linked heap l r y ys turned.chain k.chain turned.distinct k.distinct
              apart' in
          let whole = sym (ap (λ zs. reverse_aux zs (y ∷ ys)) back) ∙ joined_list in
          record {
            joined = record {
              heap = linked.heap';
              head = record head { length = add_size head.length tail.length; last = tail.last };
              tail = deque_new;
            };
            succeeds = rw (more, more') (succeed l turned.outer k.outer linked.heap' linked.links);
            head = record {
              outer = h.outer;
              inner = k.inner ∙ sym (last_of-append (x ∷ xs) y ys);
              counted = omega (arith, h.counted, k.counted, fits, length-append xs (y ∷ ys));
              chain = subst (Chain at_first linked.heap' none) whole linked.chain;
              distinct = IsDistinct-append (x ∷ xs) (y ∷ ys) h.distinct k.distinct apart;
            };
            tail = empty-IsDeque linked.heap';
            keeps = λ t p zs a b c.
                linked.others t p zs
                  (subst (λ vs. AreApart vs zs) back (AreApart-reverse_aux (x ∷ xs) [] zs a tt)).0
                  b.0 c;
          }
    ]
  where
    joined_list : reverse_aux (reverse (x ∷ xs)) (y ∷ ys) ≡ (x ∷ xs) ++ (y ∷ ys)
    joined_list =
        reverse_aux-eq (reverse (x ∷ xs)) (y ∷ ys)
        ∙ ap (λ zs. zs ++ (y ∷ ys)) (reverse-reverse (x ∷ xs))

    absent : length (reverse (x ∷ xs)) ≡ 0 → ⊥
    absent e = omega (arith, e, length-reverse_aux (x ∷ xs) [])

    succeed :
        (l : Cell)
        → head.last ≡ some l.0
        → tail.first ≡ some y.0
        → (heap' : Heap) → join_links heap (some l.0) (some y.0) ≡ some heap'
        → (elim (join_links heap head.last tail.first) as (λ o. Option Joined) [
          | none ↦ none
          | some w ↦ some (record {
            heap = w;
            head = record head { length = add_size head.length tail.length; last = tail.last };
            tail = deque_new;
          })
        ])
          ≡ some (record {
            heap = heap';
            head = record head { length = add_size head.length tail.length; last = tail.last };
            tail = deque_new;
          })
    succeed l at_l at_y heap' links = let same = ap₂ (join_links heap) at_l at_y ∙ links in rw same

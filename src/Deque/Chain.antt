-- ===== src/Deque/Chain.antt =====
-- The elements of a deque in the heap, as a sequence of addresses and attributes.
use diagonal.Base.{
  ℕ, zero, suc, ◌<◌, ◌≡◌, ◌≢◌, refl, ◌∙◌, Option, none, some, List, [], ◌∷◌, ◌++◌, arith, All,
  length, get_elem?, set, get_elem?-set_self, get_elem?-set_ne,
}
use mathlib.Core.List.{reverse, reverse_aux}
use diagonal.Deque.{
  Pointer, DequeElem, Heap, Side, at_first, at_last, opposite, link, put_link, write_link,
}

-- An address with its attribute.
abbrev pub Cell : Type 0
Cell = ℕ × ℕ

abbrev pub head_of : List Cell → Pointer
head_of [] = none
head_of (x ∷ xs) = some x.0

abbrev pub last_of : List Cell → Pointer
last_of [] = none
last_of (x ∷ []) = some x.0
last_of (x ∷ y ∷ ys) = last_of (y ∷ ys)

-- From the end `s` inwards: each element links back to the one before, the first to `p`, and on to
-- the one behind.
abbrev pub Chain : Side → Heap → Pointer → List Cell → Type 0
Chain s heap p [] = Unit
Chain s heap p (x ∷ xs) =
    ((e : DequeElem) × (get_elem? heap x.0 ≡ some e)
      × (e.attr ≡ x.1)
      × (link s e ≡ p)
      × (link (opposite s) e ≡ head_of xs))
    × Chain s heap (some x.0) xs

abbrev pub IsApart : ℕ → List Cell → Type 0
IsApart a xs = All (λ (x : Cell). a ≢ x.0) xs

abbrev pub IsDistinct : List Cell → Type 0
IsDistinct [] = Unit
IsDistinct (x ∷ xs) = IsApart x.0 xs × IsDistinct xs

opposite-opposite : (s : Side) (e : DequeElem) → link (opposite (opposite s)) e ≡ link s e
opposite-opposite at_first e = refl
opposite-opposite at_last e = refl

-- Read from the other end, with `acc` behind.
pub Chain-reverse_aux :
    (s : Side) (heap : Heap) (xs acc : List Cell)
    → Chain s heap (head_of acc) xs
    → Chain (opposite s) heap (head_of xs) acc
    → Chain (opposite s) heap none (reverse_aux xs acc)
Chain-reverse_aux s heap [] acc c d = d
Chain-reverse_aux s heap (x ∷ xs) acc ((e, at, attr, back, on), c) d =
    Chain-reverse_aux s heap xs (x ∷ acc) c ((e, at, attr, on, opposite-opposite s e ∙ back), d)

pub Chain-reverse :
    (s : Side) (heap : Heap) (xs : List Cell)
    → Chain s heap none xs
    → Chain (opposite s) heap none (reverse xs)
Chain-reverse s heap xs c = Chain-reverse_aux s heap xs [] c tt

-- An element outside the chain does not matter.
pub Chain-set :
    (s : Side) (heap : Heap) (p : Pointer) (xs : List Cell) (a : ℕ) (e : DequeElem)
    → IsApart a xs
    → Chain s heap p xs
    → Chain s (set heap a e) p xs
Chain-set s heap p [] a e h c = tt
Chain-set s heap p (x ∷ xs) a e (h, hs) ((f, at, attr, back, on), c) = (
  (f, get_elem?-set_ne heap a x.0 e h ∙ at, attr, back, on),
  Chain-set s heap (some x.0) xs a e hs c,
)

get_elem?-append_left :
    (heap : Heap) (i : ℕ) (e f : DequeElem)
    → get_elem? heap i ≡ some e
    → get_elem? (heap ++ (f ∷ [])) i ≡ some e
get_elem?-append_left [] i e f h = cc
get_elem?-append_left (g ∷ heap) zero e f h = h
get_elem?-append_left (g ∷ heap) (suc i) e f h = get_elem?-append_left heap i e f h

pub Chain-append :
    (s : Side) (heap : Heap) (p : Pointer) (xs : List Cell) (f : DequeElem)
    → Chain s heap p xs
    → Chain s (heap ++ (f ∷ [])) p xs
Chain-append s heap p [] f c = tt
Chain-append s heap p (x ∷ xs) f ((e, at, attr, back, on), c) = (
  (e, get_elem?-append_left heap x.0 e f at, attr, back, on),
  Chain-append s heap (some x.0) xs f c,
)

pub get_elem?-lt :
    (heap : Heap) (i : ℕ) (e : DequeElem) → get_elem? heap i ≡ some e → i < length heap
get_elem?-lt [] i e h = absurd (none_some h)
  where
    none_some : ◌≡◌ {A = Option DequeElem} none (some e) → ⊥
    none_some q = cc
get_elem?-lt (g ∷ heap) zero e h = omega arith
get_elem?-lt (g ∷ heap) (suc i) e h = omega (arith, get_elem?-lt heap i e h)

pub Chain-IsApart :
    (s : Side) (heap : Heap) (p : Pointer) (xs : List Cell)
    → Chain s heap p xs
    → IsApart (length heap) xs
Chain-IsApart s heap p [] c = tt
Chain-IsApart s heap p (x ∷ xs) ((e, at, attr, back, on), c) =
    (other, Chain-IsApart s heap (some x.0) xs c)
  where
    other : length heap ≡ x.0 → ⊥
    other q = omega (arith, q, get_elem?-lt heap x.0 e at)

link-put_link : (s : Side) (p : Pointer) (e : DequeElem) → link s (put_link s p e) ≡ p
link-put_link at_first p e = refl
link-put_link at_last p e = refl

link-put_other :
    (s : Side) (p : Pointer) (e : DequeElem)
    → link (opposite s) (put_link s p e) ≡ link (opposite s) e
link-put_other at_first p e = refl
link-put_other at_last p e = refl

attr-put_link : (s : Side) (p : Pointer) (e : DequeElem) → (put_link s p e).attr ≡ e.attr
attr-put_link at_first p e = refl
attr-put_link at_last p e = refl

-- Writing the outer link of the first element of a chain.
pub record Relinked (s : Side) (heap : Heap) (q : Pointer) (x : Cell) (xs : List Cell)
    : Type 1 where
  pub heap' : Heap
  pub written : write_link s heap (some x.0) q ≡ some heap'
  pub chain : Chain s heap' q (x ∷ xs)
  pub reads :
      (i : ℕ) (e : DequeElem) → x.0 ≢ i → get_elem? heap i ≡ some e → get_elem? heap' i ≡ some e
  pub others :
      (t : Side) (p : Pointer) (ys : List Cell)
      → IsApart x.0 ys
      → Chain t heap p ys
      → Chain t heap' p ys

pub Chain-Relinked :
    (s : Side) (heap : Heap) (p q : Pointer) (x : Cell) (xs : List Cell)
    → IsApart x.0 xs
    → Chain s heap p (x ∷ xs)
    → Relinked s heap q x xs
unfolding write_link
Chain-Relinked s heap p q x xs apart ((e, at, attr, back, on), c) = record {
  heap' = set heap x.0 (put_link s q e);
  written = rw (write_link, at);
  chain = (
    (
      put_link s q e,
      get_elem?-set_self heap x.0 (put_link s q e) (get_elem?-lt heap x.0 e at),
      attr-put_link s q e ∙ attr,
      link-put_link s q e,
      link-put_other s q e ∙ on,
    ),
    Chain-set s heap (some x.0) xs x.0 (put_link s q e) apart c,
  );
  reads = λ i f h at'. get_elem?-set_ne heap x.0 i (put_link s q e) h ∙ at';
  others = λ t r ys h d. Chain-set t heap r ys x.0 (put_link s q e) h d;
}

-- ===== src/Vector/Laws.antt =====
-- Each operation on a valid vector by what it does to the contents.
use diagonal.Base.{
  ℕ, zero, suc, ◌+◌, ◌-◌, ◌*◌, ◌%◌, ◌^◌, ◌≤◌, ◌<◌, ◌≡◌, refl, ap, ◌∙◌, false, Option, none, some,
  List, [], ◌∷◌, arith, ltb, leb, ◌==◌, ==_iff, ltb→lt, lt→ltb, le→ltb, ltb→le, length, take, drop,
  replicate, max, length-replicate, length-take, length-drop, inl, inr, Bool-cases,
}
use diagonal.Base.Slices.{overwrite, take_all, take-append_left, length-overwrite}
use diagonal.Base.Word.{size_mod}
use native.Mathlib.Nat.{pow-zero, pow-succ'}
use diagonal.Vector.{
  Vector, Outcome, max_elements, create_loop, vector_create, elements_copy, create_from,
  vector_copy_from, IsValid, contents,
}

create_loop_ends :
    (fuel c n : ℕ)
    → 0 < c
    → c ≤ max 1 (2 * n)
    → n ≤ c * 2 ^ fuel
    → n < 2 ^ 60
    → (c' : ℕ) × (create_loop (suc fuel) c n ≡ some c') × (n ≤ c') × (0 < c') × (c' ≤ max 1 (2 * n))
unfolding create_loop
create_loop_ends zero c n pos small enough h =
    let one : c * 2 ^ 0 ≡ c = omega (arith, ap (λ (t : ℕ). c * t) (pow-zero 2)) in
    (c, rw (le→ltb c n (omega arith)), omega arith, pos, small)
create_loop_ends (suc fuel) c n pos small enough h = elim (Bool-cases (ltb c n)) [
  | inl more ↦
      let less = ltb→lt _ _ more in
      let twice : c * 2 % size_mod ≡ c * 2 = omega arith in
      let room : c * 2 ^ suc fuel ≡ c * 2 * 2 ^ fuel =
        omega (arith, ap (λ (t : ℕ). c * t) (pow-succ' 2 fuel)) in
      let (c', e, over, pos', small') =
        create_loop_ends fuel (c * 2) n (omega arith) (omega arith) (omega arith) h in
      (c', rw more (ap (λ t. create_loop (suc fuel) t n) twice ∙ e), over, pos', small')
  | inr done ↦ (c, rw done, ltb→le _ _ done, pos, small)
]

-- A vector of less than 2 ^ 60 elements is created: the loop ends, the result is valid and has that
-- length, and its capacity is at most twice the length (or 1).
pub vector_create-IsValid :
    (n : ℕ)
    → n < 2 ^ 60
    → (v : Vector) × (vector_create n ≡ Outcome.ok v)
      × IsValid v
      × (v.size ≡ n)
      × (v.capacity ≤ max 1 (2 * n))
unfolding vector_create
vector_create-IsValid n h =
    let (c, e, over, pos, small) =
      create_loop_ends 63 1 n (omega arith) (omega arith) (omega arith) h in
    let allowed : leb max_elements c ≡ false = ground arith in
    (
      record { capacity = c; size = n; elements = replicate c none },
      rw (e, vector_create) (rw allowed),
      record {
        block_size = length-replicate c none;
        within = over;
        positive = pos;
        bounded = omega arith;
      },
      refl,
      small,
    )

-- The elements of a list that is written over from the front.
overwrite_front :
    (xs ys : List (Option ℕ)) (n : ℕ) → n ≡ length ys → take n (overwrite xs 0 ys) ≡ ys
overwrite_front xs ys n e = take-append_left ys (drop (length ys) xs) n e

create_from-contents :
    (v : Vector) (start n : ℕ)
    → IsValid v
    → n < 2 ^ 60
    → start + n ≤ v.size
    → (w : Vector) × (create_from v start n ≡ Outcome.ok w)
      × IsValid w
      × (contents w ≡ take n (drop start v.elements))
unfolding create_from elements_copy
create_from-contents v start n valid h fits =
    let (w, e, w_valid, sized, small) = vector_create-IsValid n h in
    let part = take n (drop start v.elements) in
    let whole : length part ≡ n = omega (
      arith,
      length-take n (drop start v.elements),
      length-drop start v.elements,
      valid.block_size,
      valid.within,
    ) in
    let copied : (m : ℕ) → w.size ≡ m → contents w ≡ take m w.elements =
      λ m q. ap (λ k. take k w.elements) q in
    elim (Bool-cases (n == 0)) [
      | inl none_wanted ↦
          let zero_size : n ≡ 0 = (==_iff n 0).0 none_wanted in
          (w, rw (e, create_from) (rw none_wanted), w_valid, rw (sized, zero_size))
      | inr wanted ↦ (
        record w { elements = overwrite w.elements 0 part },
        rw (e, create_from)
            (rw (
              wanted,
              le→ltb (length v.elements) (start + n)
                  (omega (arith, valid.block_size, valid.within)),
              le→ltb (length w.elements) n
                  (omega (arith, w_valid.block_size, w_valid.within, sized)),
            )),
        record {
          block_size =
              length-overwrite w.elements 0 part
                (omega (arith, whole, w_valid.block_size, w_valid.within, sized))
              ∙ w_valid.block_size;
          within = w_valid.within;
          positive = w_valid.positive;
          bounded = w_valid.bounded;
        },
        overwrite_front w.elements part w.size (omega (arith, whole, sized)),
      )
    ]

take-nil : (n : ℕ) → take {A = Option ℕ} n [] ≡ []
take-nil n = take_all [] n (omega arith)

take-drop_part :
    (xs : List (Option ℕ)) (start n : ℕ) → take (n - start) (drop start xs) ≡ drop start (take n xs)
take-drop_part xs zero n = ap (λ k. take k xs) {x = n - 0} {y = n} (omega arith)
take-drop_part [] (suc start) zero = take-nil (0 - suc start)
take-drop_part [] (suc start) (suc n) = take-nil (suc n - suc start)
take-drop_part (x ∷ xs) (suc start) zero =
    ap (λ k. take k (drop start xs)) {x = 0 - suc start} {y = 0} (omega arith)
take-drop_part (x ∷ xs) (suc start) (suc n) =
    ap (λ k. take k (drop start xs)) {x = suc n - suc start} {y = n - start} (omega arith)
    ∙ take-drop_part xs start n

-- Copying from an index on gives a valid vector of the contents from that index on, if the index is
-- at most the length, and NULL for every other index.
pub vector_copy_from-contents :
    (v : Vector) (start : ℕ)
    → IsValid v
    → v.size < 2 ^ 60
    → (start ≤ v.size
        → (w : Vector) × (vector_copy_from v start ≡ Outcome.ok w)
          × IsValid w
          × (contents w ≡ drop start (contents v)))
      × (v.size < start → vector_copy_from v start ≡ Outcome.null)
unfolding vector_copy_from
vector_copy_from-contents v start valid h = (
  λ within.
      let (w, e, w_valid, same) =
        create_from-contents v start (v.size - start) valid (omega arith) (omega arith) in
      (
        w,
        rw (le→ltb v.size start within) e,
        w_valid,
        same ∙ take-drop_part v.elements start v.size,
      ),
  λ past. rw (lt→ltb v.size start past),
)

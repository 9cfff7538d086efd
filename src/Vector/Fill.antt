-- ===== src/Vector/Fill.antt =====
-- Filling a vector, one element after the other.
use diagonal.Base.{
  ℕ, zero, suc, ◌+◌, ◌≤◌, ◌≡◌, refl, ap, ◌∙◌, sym, Option, some, List, [], ◌∷◌, arith, true, ltb,
  lt→ltb, length, set, drop, replicate, length-set, length-replicate,
}
use diagonal.Base.Slices.{overwrite, take-append-drop, take-append_left, length-overwrite}
use diagonal.Vector.{Vector, Outcome, vector_set, fill_loop, vector_fill, IsValid, contents}

overwrite_after_set :
    (xs : List (Option ℕ)) (at n : ℕ) (e : Option ℕ)
    → at + suc n ≤ length xs
    → overwrite (set xs at e) (at + 1) (replicate n e) ≡ overwrite xs at (replicate (suc n) e)
overwrite_after_set [] at n e h = absurd (omega arith)
overwrite_after_set (x ∷ xs) zero n e h = refl
overwrite_after_set (x ∷ xs) (suc at) n e h =
    ap (λ k. overwrite (x ∷ set xs at e) k (replicate n e)) {x = suc at + 1} {y = suc (at + 1)}
      (omega arith)
    ∙ ap (λ t. x ∷ t) (overwrite_after_set xs at n e (omega arith))

fill_loop-overwrite :
    (n k e : ℕ) (v : Vector)
    → k + n ≤ length v.elements
    → fill_loop n k e v
      ≡ Outcome.ok (record v { elements = overwrite v.elements k (replicate n (some e)) })
unfolding fill_loop vector_set
fill_loop-overwrite zero k e v h =
    ap (λ xs. Outcome.ok (record v { elements = xs })) (sym (take-append-drop k v.elements))
fill_loop-overwrite (suc n) k e v h =
    let set_size = length-set v.elements k (some e) in
    let inside : ltb k (length v.elements) ≡ true = lt→ltb _ _ (omega arith) in
    let rest =
      fill_loop-overwrite n (k + 1) e (record v { elements = set v.elements k (some e) })
        (omega (arith, set_size)) in
    rw (inside, fill_loop)
      (rest
        ∙ ap (λ xs. Outcome.ok (record v { elements = xs }))
            (overwrite_after_set v.elements k n (some e) h))

-- Filling a valid vector gives a valid vector of the same length, every element of which is the one
-- given.
pub vector_fill-contents :
    (v : Vector) (e : ℕ)
    → IsValid v
    → (w : Vector) × (vector_fill v e ≡ Outcome.ok w)
      × IsValid w
      × (contents w ≡ replicate v.size (some e))
unfolding vector_fill
vector_fill-contents v e valid =
    let filled = replicate v.size (some e) in
    let long : length filled ≡ v.size = length-replicate v.size (some e) in
    (
      record v { elements = overwrite v.elements 0 filled },
      fill_loop-overwrite v.size 0 e v (omega (arith, valid.block_size, valid.within)),
      record {
        block_size =
            length-overwrite v.elements 0 filled
              (omega (arith, long, valid.block_size, valid.within))
            ∙ valid.block_size;
        within = valid.within;
        positive = valid.positive;
        bounded = valid.bounded;
      },
      take-append_left filled (drop (length filled) v.elements) v.size (sym long),
    )

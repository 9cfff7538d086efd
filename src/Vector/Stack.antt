-- ===== src/Vector/Stack.antt =====
-- A vector as a stack: pushing and popping at its back.
use diagonal.Base.{
  ℕ, zero, suc, ◌+◌, ◌-◌, ◌*◌, ◌%◌, ◌≤◌, ◌<◌, ◌≡◌, refl, ap, ◌∙◌, false, Option, none, some, List,
  [], ◌∷◌, ◌++◌, arith, leb, ◌==◌, lt→ltb, length, set, take, replicate, length-set, length-append,
  length-replicate, inl, inr, Bool-cases,
}
use diagonal.Base.Slices.{take_all}
use diagonal.Base.Word.{size_mod, add_size, sub_size}
use diagonal.Vector.{
  Vector, Outcome, max_elements, append_element, vector_push_back, vector_pop_back, IsValid,
  contents,
}

take-set_next :
    (xs : List (Option ℕ)) (n : ℕ) (e : Option ℕ)
    → n < length xs
    → take (n + 1) (set xs n e) ≡ take n xs ++ (e ∷ [])
take-set_next [] n e h = absurd (omega arith)
take-set_next (x ∷ xs) zero e h = refl
take-set_next (x ∷ xs) (suc n) e h =
    ap (λ k. take k (x ∷ set xs n e)) {x = suc n + 1} {y = suc (n + 1)} (omega arith)
    ∙ ap (λ t. x ∷ t) (take-set_next xs n e (omega arith))

take-set_before : (xs : List (Option ℕ)) (n : ℕ) (e : Option ℕ) → take n (set xs n e) ≡ take n xs
take-set_before [] n e = refl
take-set_before (x ∷ xs) zero e = refl
take-set_before (x ∷ xs) (suc n) e = ap (λ t. x ∷ t) (take-set_before xs n e)

-- `w` is `v` with `e` behind its elements, and popping `w` gives the elements of `v` back.
pub record Pushed (v : Vector) (e : ℕ) (w : Vector) : Type 0 where
  pub valid : IsValid w
  pub appended : contents w ≡ contents v ++ (some e ∷ [])
  pub popped : contents (vector_pop_back w) ≡ contents v
  pub popped_valid : IsValid (vector_pop_back w)

append_element-Pushed :
    (v : Vector) (e : ℕ)
    → IsValid v
    → v.size < v.capacity
    → (w : Vector) × (append_element v e ≡ Outcome.ok w) × Pushed v e w
unfolding append_element vector_pop_back
append_element-Pushed v e valid room =
    let inside : v.size < length v.elements = omega (arith, valid.block_size) in
    let moved : add_size v.size 1 ≡ v.size + 1 = omega (arith, valid.bounded) in
    let back : sub_size (add_size v.size 1) 1 ≡ v.size = omega (arith, valid.bounded) in
    let block = length-set v.elements v.size (some e) ∙ valid.block_size in
    (
      record v { size = add_size v.size 1; elements = set v.elements v.size (some e) },
      rw (lt→ltb _ _ inside),
      record {
        valid = record {
          block_size = block;
          within = omega (arith, moved, room);
          positive = valid.positive;
          bounded = valid.bounded;
        };
        appended =
            ap (λ k. take k (set v.elements v.size (some e))) moved
            ∙ take-set_next v.elements v.size (some e) inside;
        popped =
            ap (λ k. take k (set v.elements v.size (some e))) back
            ∙ take-set_before v.elements v.size (some e);
        popped_valid = record {
          block_size = block;
          within = omega (arith, back, room);
          positive = valid.positive;
          bounded = valid.bounded;
        };
      },
    )

take-append_within :
    (xs ys : List (Option ℕ)) (n : ℕ) → n ≤ length xs → take n (xs ++ ys) ≡ take n xs
take-append_within xs ys zero h = refl
take-append_within [] ys (suc n) h = absurd (omega arith)
take-append_within (x ∷ xs) ys (suc n) h =
    ap (λ t. x ∷ t) (take-append_within xs ys n (omega arith))

abbrev grown : Vector → Vector
grown v = record v {
  capacity = v.capacity * 2 % size_mod;
  elements =
      take (v.capacity * 2 % size_mod) v.elements
      ++ replicate (v.capacity * 2 % size_mod - length v.elements) none;
}

grown-IsValid :
    (v : Vector)
    → IsValid v
    → v.capacity * 2 < max_elements
    → IsValid (grown v) × (contents (grown v) ≡ contents v) × (v.size < (grown v).capacity)
grown-IsValid v valid h =
    let c : v.capacity * 2 % size_mod ≡ v.capacity * 2 = omega arith in
    let c_max : v.capacity * 2 % size_mod < max_elements = omega (arith, c) in
    let kept : take (v.capacity * 2 % size_mod) v.elements ≡ v.elements =
      take_all v.elements (v.capacity * 2 % size_mod) (omega (arith, c, valid.block_size)) in
    let idle : List (Option ℕ) = replicate (v.capacity * 2 % size_mod - length v.elements) none in
    let whole = length-append v.elements idle in
    let idle_size : length idle ≡ v.capacity * 2 % size_mod - length v.elements =
      length-replicate (v.capacity * 2 % size_mod - length v.elements) none in
    let block : length (grown v).elements ≡ v.capacity * 2 % size_mod =
      rw kept (omega (arith, whole, c, valid.block_size, idle_size)) in
    (
      record {
        block_size = block;
        within = omega (arith, c, valid.within);
        positive = omega (arith, c, valid.positive);
        bounded = c_max;
      },
      rw kept
          (take-append_within v.elements _ v.size (omega (arith, valid.block_size, valid.within))),
      omega (arith, c, valid.within, valid.positive),
    )

-- Pushing an element onto a valid vector gives a valid vector with that element behind the others,
-- whether the block has to grow or not, if twice the capacity is below the limit that the code
-- checks; popping gives the contents back.
pub vector_push_back-Pushed :
    (v : Vector) (e : ℕ)
    → IsValid v
    → v.capacity * 2 < max_elements
    → (w : Vector) × (vector_push_back v e ≡ Outcome.ok w) × Pushed v e w
unfolding vector_push_back
vector_push_back-Pushed v e valid h = elim (Bool-cases (v.size == v.capacity)) [
  | inl full ↦
      let (g_valid, same, room) = grown-IsValid v valid h in
      let (w, made, p) = append_element-Pushed (grown v) e g_valid room in
      let allowed : leb max_elements (v.capacity * 2 % size_mod) ≡ false = ground arith in
      (
        w,
        rw (full, allowed) made,
        record {
          valid = p.valid;
          appended = p.appended ∙ ap (λ t. t ++ (some e ∷ [])) same;
          popped = p.popped ∙ same;
          popped_valid = p.popped_valid;
        },
      )
  | inr free ↦
      let room : v.size < v.capacity = ground (arith, valid.within) in
      let (w, made, p) = append_element-Pushed v e valid room in (w, rw free made, p)
]

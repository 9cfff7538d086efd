-- ===== src/Vector/Examples.antt =====
-- Runs and instances for vectors.
use diagonal.Base.{◌≡◌, refl, some, [], ◌∷◌, arith}
use diagonal.Vector.{Vector, Outcome, vector_push_back, IsValid}
use diagonal.Vector.Stack.{Pushed, vector_push_back-Pushed}

-- A full block of two elements.
abbrev two : Vector
two = record { capacity = 2; size = 2; elements = some 7 ∷ some 8 ∷ [] }

two-IsValid : IsValid two
two-IsValid = record {
  block_size = refl;
  within = omega arith;
  positive = omega arith;
  bounded = omega arith;
}

vector_push_back-Pushed_example :
    (w : Vector) × (vector_push_back two 9 ≡ Outcome.ok w) × Pushed two 9 w
vector_push_back-Pushed_example = vector_push_back-Pushed two 9 two-IsValid (omega arith)

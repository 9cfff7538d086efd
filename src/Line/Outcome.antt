-- ===== src/Line/Outcome.antt =====
-- What reading a line comes to, from the bytes that are left.
use diagonal.Base.{
  ℕ, ◌<◌, ◌≡◌, refl, sym, ap, Option, none, some, List, [], ◌∷◌, ◌++◌, arith, length, append_assoc,
  append-nil,
}
use diagonal.Line.{LineError, joined, ended}
use diagonal.Line.Scan.{first_line}

-- What comes of the bytes that are left, with `line` gathered before.
unfoldable pub outcome : Option (List ℕ) → List ℕ → LineError
outcome line [] = ended line
outcome line (x ∷ xs) = LineError.error_ok (joined line (first_line (x ∷ xs)))

pub outcome_some :
    (line : Option (List ℕ)) (bs : List ℕ)
    → 0 < length bs
    → outcome line bs ≡ LineError.error_ok (joined line (first_line bs))
unfolding outcome
outcome_some line [] h = absurd (omega arith)
outcome_some line (x ∷ xs) h = refl

joined_twice :
    (line : Option (List ℕ)) (xs ys : List ℕ)
    → joined (some (joined line xs)) ys ≡ joined line (xs ++ ys)
unfolding joined
joined_twice none xs ys = refl
joined_twice (some line) xs ys = append_assoc line xs ys

pub outcome-joined :
    (line : Option (List ℕ)) (xs bs : List ℕ)
    → outcome (some (joined line xs)) bs ≡ LineError.error_ok (joined line (xs ++ first_line bs))
unfolding outcome first_line ended
outcome-joined line xs [] = ap LineError.error_ok (ap (joined line) (sym (append-nil xs)))
outcome-joined line xs (b ∷ bs) = ap LineError.error_ok (joined_twice line xs (first_line (b ∷ bs)))

-- ===== src/Metric/Levenshtein/Scripts.antt =====
-- Edit scripts: the distance is the least number of edits that lead from one string to the other.
use diagonal.Base.{
  ℕ, ◌+◌, ◌≤◌, ◌≡◌, refl, ap, ap₂, ◌∙◌, List, [], ◌∷◌, arith, ◌==◌, min, inl, inr, ◌⊎◌, Bool-cases,
}
use mathlib.Core.List.{reverse, reverse_aux, reverse-reverse}
use diagonal.Metric.Levenshtein.{cost}
use diagonal.Metric.Levenshtein.Distance.{
  distance, cost-le, distance-insert, distance-delete, distance-same, distance-nil,
}

-- One step along both strings; all but `keep_char` count as an edit.
pub data Edit : Type 0 where
  keep_char delete_char insert_char : ℕ → Edit
  replace_char : ℕ → ℕ → Edit

abbrev pub old_of : List Edit → List ℕ
old_of [] = []
old_of (keep_char c ∷ s) = c ∷ old_of s
old_of (delete_char c ∷ s) = c ∷ old_of s
old_of (insert_char c ∷ s) = old_of s
old_of (replace_char c d ∷ s) = c ∷ old_of s

abbrev pub new_of : List Edit → List ℕ
new_of [] = []
new_of (keep_char c ∷ s) = c ∷ new_of s
new_of (delete_char c ∷ s) = new_of s
new_of (insert_char c ∷ s) = c ∷ new_of s
new_of (replace_char c d ∷ s) = d ∷ new_of s

abbrev pub edits : List Edit → ℕ
edits [] = 0
edits (keep_char c ∷ s) = edits s
edits (delete_char c ∷ s) = edits s + 1
edits (insert_char c ∷ s) = edits s + 1
edits (replace_char c d ∷ s) = edits s + 1

distance-replace : (x y : ℕ) (xs ys : List ℕ) → distance (x ∷ xs) (y ∷ ys) ≤ distance xs ys + 1
distance-replace x y xs ys = omega (arith, cost-le x y)

pub distance-edits : (s : List Edit) → distance (old_of s) (new_of s) ≤ edits s
distance-edits [] = omega arith
distance-edits (keep_char c ∷ s) =
    omega (arith, distance-same c (old_of s) (new_of s), distance-edits s)
distance-edits (delete_char c ∷ s) =
    omega (arith, distance-delete c (old_of s) (new_of s), distance-edits s)
distance-edits (insert_char c ∷ s) =
    omega (arith, distance-insert c (old_of s) (new_of s), distance-edits s)
distance-edits (replace_char c d ∷ s) =
    omega (arith, distance-replace c d (old_of s) (new_of s), distance-edits s)

-- A script between the strings with as many edits as the distance.
pub record Attained (xs ys : List ℕ) : Type 0 where
  pub script : List Edit
  pub old : old_of script ≡ xs
  pub new : new_of script ≡ ys
  pub counted : edits script ≡ distance xs ys

inserts : (ys : List ℕ) → Attained [] ys
inserts [] = record { script = []; old = refl; new = refl; counted = refl }
inserts (y ∷ ys) =
    let a = inserts ys in
    record {
      script = insert_char y ∷ a.script;
      old = a.old;
      new = ap (λ zs. y ∷ zs) a.new;
      counted = omega (arith, a.counted);
    }

deletes : (xs : List ℕ) → Attained xs []
deletes [] = record { script = []; old = refl; new = refl; counted = refl }
deletes (x ∷ xs) =
    let a = deletes xs in
    record {
      script = delete_char x ∷ a.script;
      old = ap (λ zs. x ∷ zs) a.old;
      new = a.new;
      counted = omega (arith, a.counted, distance-nil xs);
    }

min-cases : (a b c : ℕ) → (min (min a b) c ≡ a) ⊎ (min (min a b) c ≡ b) ⊎ (min (min a b) c ≡ c)
min-cases a b c = ground arith

distance-cases :
    (x y : ℕ) (xs ys : List ℕ)
    → (distance (x ∷ xs) (y ∷ ys) ≡ distance (x ∷ xs) ys + 1)
      ⊎ (distance (x ∷ xs) (y ∷ ys) ≡ distance xs (y ∷ ys) + 1)
      ⊎ (distance (x ∷ xs) (y ∷ ys) ≡ distance xs ys + cost x y)
distance-cases x y xs ys = min-cases _ _ _

pub attained : (xs ys : List ℕ) → Attained xs ys
attained [] ys = inserts ys
attained (x ∷ xs) [] = deletes (x ∷ xs)
attained (x ∷ xs) (y ∷ ys) = elim (distance-cases x y xs ys) [
  | inl e ↦
      let a = attained (x ∷ xs) ys in
      record {
        script = insert_char y ∷ a.script;
        old = a.old;
        new = ap (λ zs. y ∷ zs) a.new;
        counted = omega (arith, a.counted, e);
      }
  | inr (inl e) ↦
      let a = attained xs (y ∷ ys) in
      record {
        script = delete_char x ∷ a.script;
        old = ap (λ zs. x ∷ zs) a.old;
        new = a.new;
        counted = omega (arith, a.counted, e);
      }
  | inr (inr e) ↦
      let a = attained xs ys in
      elim (Bool-cases (x == y)) [
        | inl same ↦ record {
          script = keep_char x ∷ a.script;
          old = ap (λ zs. x ∷ zs) a.old;
          new = ap₂ (λ z zs. z ∷ zs) (ground (arith, same)) a.new;
          counted = ground (arith, a.counted, e, same);
        }
        | inr other ↦ record {
          script = replace_char x y ∷ a.script;
          old = ap (λ zs. x ∷ zs) a.old;
          new = ap (λ zs. y ∷ zs) a.new;
          counted = ground (arith, a.counted, e, other);
        }
      ]
]

old_of-reverse_aux :
    (s t : List Edit) → old_of (reverse_aux s t) ≡ reverse_aux (old_of s) (old_of t)
old_of-reverse_aux [] t = refl
old_of-reverse_aux (keep_char c ∷ s) t = old_of-reverse_aux s (keep_char c ∷ t)
old_of-reverse_aux (delete_char c ∷ s) t = old_of-reverse_aux s (delete_char c ∷ t)
old_of-reverse_aux (insert_char c ∷ s) t = old_of-reverse_aux s (insert_char c ∷ t)
old_of-reverse_aux (replace_char c d ∷ s) t = old_of-reverse_aux s (replace_char c d ∷ t)

new_of-reverse_aux :
    (s t : List Edit) → new_of (reverse_aux s t) ≡ reverse_aux (new_of s) (new_of t)
new_of-reverse_aux [] t = refl
new_of-reverse_aux (keep_char c ∷ s) t = new_of-reverse_aux s (keep_char c ∷ t)
new_of-reverse_aux (delete_char c ∷ s) t = new_of-reverse_aux s (delete_char c ∷ t)
new_of-reverse_aux (insert_char c ∷ s) t = new_of-reverse_aux s (insert_char c ∷ t)
new_of-reverse_aux (replace_char c d ∷ s) t = new_of-reverse_aux s (replace_char c d ∷ t)

edits-reverse_aux : (s t : List Edit) → edits (reverse_aux s t) ≡ edits s + edits t
edits-reverse_aux [] t = omega arith
edits-reverse_aux (keep_char c ∷ s) t = edits-reverse_aux s (keep_char c ∷ t)
edits-reverse_aux (delete_char c ∷ s) t = omega (arith, edits-reverse_aux s (delete_char c ∷ t))
edits-reverse_aux (insert_char c ∷ s) t = omega (arith, edits-reverse_aux s (insert_char c ∷ t))
edits-reverse_aux (replace_char c d ∷ s) t =
    omega (arith, edits-reverse_aux s (replace_char c d ∷ t))

distance-reverse_le : (xs ys : List ℕ) → distance (reverse xs) (reverse ys) ≤ distance xs ys
distance-reverse_le xs ys =
    let a = attained xs ys in
    let s = reverse a.script in
    let old : old_of s ≡ reverse xs = old_of-reverse_aux a.script [] ∙ ap reverse a.old in
    let new : new_of s ≡ reverse ys = new_of-reverse_aux a.script [] ∙ ap reverse a.new in
    omega (arith, ap₂ distance old new, distance-edits s, edits-reverse_aux a.script [], a.counted)

pub distance-reverse : (xs ys : List ℕ) → distance (reverse xs) (reverse ys) ≡ distance xs ys
distance-reverse xs ys = omega (
  arith,
  distance-reverse_le xs ys,
  distance-reverse_le (reverse xs) (reverse ys),
  ap₂ distance (reverse-reverse xs) (reverse-reverse ys),
)

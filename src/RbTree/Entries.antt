-- ===== src/RbTree/Entries.antt =====
-- The entries of a tree from left to right, and that rotations and repairs leave them alone.
use diagonal.Base.{◌≡◌, refl, sym, ap, ◌∙◌, some, List, [], ◌∷◌, ◌++◌, append_assoc, append-nil}
use diagonal.RbTree.{
  Entry, Tree, leaf, node, Step, left_of, right_of, turn_black, turn_red, plug, rotate_left,
  rotate_right,
}

module _ {K V : Type 0} where
  abbrev pub entries : Tree K V → List (Entry K V)
  entries leaf = []
  entries (node c l e r) = entries l ++ (e ∷ entries r)

  -- What stands before and after a place.
  abbrev pub before : List (Step K V) → List (Entry K V)
  before [] = []
  before (left_of c e r ∷ path) = before path
  before (right_of c l e ∷ path) = before path ++ (entries l ++ (e ∷ []))

  abbrev pub after : List (Step K V) → List (Entry K V)
  after [] = []
  after (left_of c e r ∷ path) = e ∷ (entries r ++ after path)
  after (right_of c l e ∷ path) = after path

  pub entries-plug :
      (path : List (Step K V)) (n : Tree K V)
      → entries (plug n path) ≡ before path ++ (entries n ++ after path)
  entries-plug [] n = sym (append-nil (entries n))
  entries-plug (left_of c e r ∷ path) n =
      entries-plug path (node c n e r)
      ∙ ap (λ t. before path ++ t) (append_assoc (entries n) (e ∷ entries r) (after path))
  entries-plug (right_of c l e ∷ path) n = entries-plug path (node c l e n) ∙ simp append_assoc

  pub plug-entries :
      (path : List (Step K V)) (m n : Tree K V)
      → entries m ≡ entries n
      → entries (plug m path) ≡ entries (plug n path)
  plug-entries path m n e =
      entries-plug path m ∙ ap (λ t. before path ++ (t ++ after path)) e ∙ sym (entries-plug path n)

  pub entries-turn_black : (t : Tree K V) → entries (turn_black t) ≡ entries t
  entries-turn_black leaf = refl
  entries-turn_black (node c l e r) = refl

  pub entries-turn_red : (t : Tree K V) → entries (turn_red t) ≡ entries t
  entries-turn_red leaf = refl
  entries-turn_red (node c l e r) = refl

  pub entries-rotate_left : (t u : Tree K V) → rotate_left t ≡ some u → entries u ≡ entries t
  unfolding rotate_left
  entries-rotate_left leaf u h = cc
  entries-rotate_left (node cb a b leaf) u h = cc
  entries-rotate_left (node cb a b (node cd c d e)) u h =
      let same : u ≡ node cd (node cb a b c) d e = cc in
      rw same (append_assoc (entries a) (b ∷ entries c) (d ∷ entries e))

  pub entries-rotate_right : (t u : Tree K V) → rotate_right t ≡ some u → entries u ≡ entries t
  unfolding rotate_right
  entries-rotate_right leaf u h = cc
  entries-rotate_right (node cd leaf d e) u h = cc
  entries-rotate_right (node cd (node cb a b c) d e) u h =
      let same : u ≡ node cb a b (node cd c d e) = cc in
      rw same (sym (append_assoc (entries a) (b ∷ entries c) (d ∷ entries e)))

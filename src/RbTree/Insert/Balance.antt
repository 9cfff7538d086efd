-- ===== src/RbTree/Insert/Balance.antt =====
-- Insertion restores the red-black invariant, whatever it meets on its way up.
use diagonal.Base.{ℕ, ◌+◌, ◌≡◌, refl, sym, Bool, true, false, Option, some, List, [], ◌∷◌}
use diagonal.RbTree.{
  Color, red, black, Tree, leaf, node, Step, left_of, right_of, is_red, up, plug, step_red, sibling,
}
use diagonal.RbTree.Entries.{entries, plug-entries}

abbrev pub weight : Color → ℕ
weight red = 0
weight black = 1

pub clash : {b : Bool} → b ≡ false → b ≡ true → ⊥
clash f t = cc

module _ {K V : Type 0} where
  -- The number of black nodes down to the leftmost leaf.
  abbrev pub height : Tree K V → ℕ
  height leaf = 0
  height (node c l e r) = height l + weight c

  -- It is the same down to every leaf.
  abbrev pub IsEven : Tree K V → Type 0
  IsEven leaf = Unit
  IsEven (node c l e r) = IsEven l × IsEven r × (height l ≡ height r)

  -- No red node has a red child.
  abbrev pub IsAlternating : Tree K V → Type 0
  IsAlternating leaf = Unit
  IsAlternating (node red l e r) =
      (is_red l ≡ false) × (is_red r ≡ false) × IsAlternating l × IsAlternating r
  IsAlternating (node black l e r) = IsAlternating l × IsAlternating r

  pub record IsRedBlack (t : Tree K V) : Type 0 where
    pub even : IsEven t
    pub alternating : IsAlternating t
    pub black_root : is_red t ≡ false

  -- The same for the surroundings of a subtree of height `h`.
  abbrev pub PathEven : List (Step K V) → ℕ → Type 0
  PathEven [] h = Unit
  PathEven (left_of c e r ∷ path) h = IsEven r × (height r ≡ h) × PathEven path (h + weight c)
  PathEven (right_of c l e ∷ path) h = IsEven l × (height l ≡ h) × PathEven path (h + weight c)

  -- A red step is not at the root, and the next one is black.
  abbrev pub BlackAbove : List (Step K V) → Type 0
  BlackAbove [] = ⊥
  BlackAbove (g ∷ path) = step_red g ≡ false

  abbrev pub PathAlternating : List (Step K V) → Type 0
  PathAlternating [] = Unit
  PathAlternating (s ∷ path) =
      IsAlternating (sibling s)
      × (step_red s ≡ true → is_red (sibling s) ≡ false)
      × (step_red s ≡ true → BlackAbove path)
      × PathAlternating path

  pub plug-IsEven :
      (path : List (Step K V)) (n : Tree K V)
      → IsEven n
      → PathEven path (height n)
      → IsEven (plug n path)
  plug-IsEven [] n e p = e
  plug-IsEven (left_of c k r ∷ path) n e (er, h, p) =
      plug-IsEven path (node c n k r) (e, er, sym h) p
  plug-IsEven (right_of c l k ∷ path) n e (el, h, p) =
      plug-IsEven path (node c l k n) (el, e, h) (rw h p)

  -- A red subtree hangs below a black step or at the root.
  abbrev pub RedBelowBlack : Tree K V → List (Step K V) → Type 0
  RedBelowBlack n [] = Unit
  RedBelowBlack n (s ∷ path) = step_red s ≡ true → is_red n ≡ false

  RedBelowBlack-up :
      (n : Tree K V) (s : Step K V) (path : List (Step K V))
      → PathAlternating (s ∷ path)
      → RedBelowBlack (up n s) path
  RedBelowBlack-up n s [] p = tt
  RedBelowBlack-up n (left_of red e r) (g ∷ path) p = λ h. absurd (clash (p.2 refl) h)
  RedBelowBlack-up n (left_of black e r) (g ∷ path) p = λ h. refl
  RedBelowBlack-up n (right_of red l e) (g ∷ path) p = λ h. absurd (clash (p.2 refl) h)
  RedBelowBlack-up n (right_of black l e) (g ∷ path) p = λ h. refl

  up-IsAlternating :
      (n : Tree K V) (s : Step K V)
      → IsAlternating n
      → IsAlternating (sibling s)
      → (step_red s ≡ true → is_red (sibling s) ≡ false)
      → (step_red s ≡ true → is_red n ≡ false)
      → IsAlternating (up n s)
  up-IsAlternating n (left_of red e r) a b c d = (d refl, c refl, a, b)
  up-IsAlternating n (left_of black e r) a b c d = (a, b)
  up-IsAlternating n (right_of red l e) a b c d = (c refl, d refl, b, a)
  up-IsAlternating n (right_of black l e) a b c d = (b, a)

  pub plug-IsAlternating :
      (path : List (Step K V)) (n : Tree K V)
      → IsAlternating n
      → RedBelowBlack n path
      → PathAlternating path
      → IsAlternating (plug n path)
  plug-IsAlternating [] n a b p = a
  plug-IsAlternating (s ∷ path) n a b p =
      plug-IsAlternating path (up n s) (up-IsAlternating n s a p.0 p.1 b)
        (RedBelowBlack-up n s path p) p.3

  pub plug-black_root :
      (path : List (Step K V)) (n : Tree K V)
      → (path ≡ [] → is_red n ≡ false)
      → PathAlternating path
      → is_red (plug n path) ≡ false
  plug-black_root [] n b p = b refl
  plug-black_root (left_of red e r ∷ []) n b p = absurd (p.2 refl)
  plug-black_root (left_of black e r ∷ []) n b p = refl
  plug-black_root (right_of red l e ∷ []) n b p = absurd (p.2 refl)
  plug-black_root (right_of black l e ∷ []) n b p = refl
  plug-black_root (s ∷ g ∷ path) n b p = plug-black_root (g ∷ path) (up n s) (λ e. cc) p.3

  -- `r` is a red-black tree with the entries of `original`.
  pub record Done (original : Tree K V) (r : Option (Tree K V)) : Type 0 where
    pub root : Tree K V
    pub returns : r ≡ some root
    pub balanced : IsRedBlack root
    pub same : entries root ≡ entries original

  -- A black subtree of the right height in place of `n`.
  pub finish :
      (path : List (Step K V)) (t n : Tree K V)
      → is_red t ≡ false
      → IsEven t
      → IsAlternating t
      → PathEven path (height t)
      → PathAlternating path
      → entries t ≡ entries n
      → Done (plug n path) (some (plug t path))
  finish path t n b e a pe pa same = record {
    root = plug t path;
    returns = refl;
    balanced = record {
      even = plug-IsEven path t e pe;
      alternating = plug-IsAlternating path t a (under path) pa;
      black_root = plug-black_root path t (λ _. b) pa;
    };
    same = plug-entries path t n same;
  }
    where
      under : (path : List (Step K V)) → RedBelowBlack t path
      under [] = tt
      under (s ∷ path) = λ _. b

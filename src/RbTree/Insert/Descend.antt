-- ===== src/RbTree/Insert/Descend.antt =====
-- The surroundings of the place that the search for a key ends at.
use diagonal.Base.{◌≡◌, refl, sym, true, List, ◌∷◌}
use Prim.Native.Nat.Ordering.{lt, eq, gt}
use Prim.Native.Nat.{Ordering}
use diagonal.RbTree.{red, black, Tree, leaf, node, Step, left_of, right_of, is_red}
use diagonal.RbTree.Insert.{descend}
use diagonal.RbTree.Insert.Balance.{
  clash, height, IsEven, IsAlternating, PathEven, BlackAbove, PathAlternating,
}

module _ {K V : Type 0} (cmp : K → K → Ordering) where
  pub descend-PathEven :
      (key : K) (t : Tree K V) (path : List (Step K V))
      → IsEven t
      → PathEven path (height t)
      → PathEven (descend cmp key t path) 0
  unfolding descend
  descend-PathEven key leaf path e p = p
  descend-PathEven key (node c l e r) path (el, er, h) p =
      elim (cmp key e.key)
        as (λ o.
          PathEven
            (elim o [
              | lt ↦ descend cmp key l (left_of c e r ∷ path)
              | eq ↦ descend cmp key r (right_of c l e ∷ path)
              | gt ↦ descend cmp key r (right_of c l e ∷ path)
            ])
            0) [
              | lt ↦ descend-PathEven key l (left_of c e r ∷ path) el (er, sym h, p)
              | eq ↦ descend-PathEven key r (right_of c l e ∷ path) er (el, h, rw h at p)
              | gt ↦ descend-PathEven key r (right_of c l e ∷ path) er (el, h, rw h at p)
            ]

  pub descend-PathAlternating :
      (key : K) (t : Tree K V) (path : List (Step K V))
      → IsAlternating t
      → (is_red t ≡ true → BlackAbove path)
      → PathAlternating path
      → PathAlternating (descend cmp key t path)
  unfolding descend
  descend-PathAlternating key leaf path a b p = p
  descend-PathAlternating key (node red l e r) path (not_l, not_r, al, ar) b p =
      elim (cmp key e.key)
        as (λ o. PathAlternating (elim o [
          | lt ↦ descend cmp key l (left_of red e r ∷ path)
          | eq ↦ descend cmp key r (right_of red l e ∷ path)
          | gt ↦ descend cmp key r (right_of red l e ∷ path)
        ])) [
          | lt ↦
              descend-PathAlternating key l (left_of red e r ∷ path) al
                (λ h. absurd (clash not_l h)) (ar, (λ _. not_r), b, p)
          | eq ↦
              descend-PathAlternating key r (right_of red l e ∷ path) ar
                (λ h. absurd (clash not_r h)) (al, (λ _. not_l), b, p)
          | gt ↦
              descend-PathAlternating key r (right_of red l e ∷ path) ar
                (λ h. absurd (clash not_r h)) (al, (λ _. not_l), b, p)
        ]
  descend-PathAlternating key (node black l e r) path (al, ar) b p =
      elim (cmp key e.key)
        as (λ o. PathAlternating (elim o [
          | lt ↦ descend cmp key l (left_of black e r ∷ path)
          | eq ↦ descend cmp key r (right_of black l e ∷ path)
          | gt ↦ descend cmp key r (right_of black l e ∷ path)
        ])) [
          | lt ↦
              descend-PathAlternating key l (left_of black e r ∷ path) al (λ _. refl)
                (ar, (λ h. absurd (clash refl h)), (λ h. absurd (clash refl h)), p)
          | eq ↦
              descend-PathAlternating key r (right_of black l e ∷ path) ar (λ _. refl)
                (al, (λ h. absurd (clash refl h)), (λ h. absurd (clash refl h)), p)
          | gt ↦
              descend-PathAlternating key r (right_of black l e ∷ path) ar (λ _. refl)
                (al, (λ h. absurd (clash refl h)), (λ h. absurd (clash refl h)), p)
        ]

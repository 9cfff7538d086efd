-- ===== src/Qselect/Examples.antt =====
-- Runs of `diag_qselect` on numbers, and an instance.
use diagonal.Base.{ℕ, ◌≤◌, ◌<◌, ◌≡◌, refl, ◌⊎◌, some, List, [], ◌∷◌, arith, length, get_elem?}
use diagonal.Base.Order.{IsRanked}
use Prim.Native.Nat.{compare}
use diagonal.Qselect.{null, element, partition, partition_front, qselect, gather}
use diagonal.Qselect.Rank.{IsAt, qselect-IsAt}

by_number : IsRanked compare
by_number = record { rank = λ n. n; cmp_rank = λ a b. refl }

abbrev numbers : List ℕ
numbers = 4 ∷ 7 ∷ 1 ∷ 4 ∷ 9 ∷ 2 ∷ []

-- The greatest but one, though `compare` puts 1 first.
qselect_second : qselect compare numbers 1 ≡ element 7
unfolding qselect partition partition_front gather
qselect_second = refl

qselect_last : qselect compare numbers 5 ≡ element 1
unfolding qselect partition partition_front gather
qselect_last = refl

qselect_past : qselect compare numbers 6 ≡ null
unfolding qselect
qselect_past = refl

qselect-IsAt_example :
    ((3 < length numbers)
      × (i : ℕ) × (x : ℕ) × (get_elem? numbers i ≡ some x)
      × (qselect compare numbers 3 ≡ element x)
      × IsAt compare by_number 3 numbers x)
    ⊎ ((length numbers ≤ 3) × (qselect compare numbers 3 ≡ null))
qselect-IsAt_example = qselect-IsAt compare by_number numbers 3 (omega arith)

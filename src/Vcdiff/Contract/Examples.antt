-- ===== src/Vcdiff/Contract/Examples.antt =====
-- Runs and instances for the contraction with the Rabin-Karp hash.
use diagonal.Base.{ℕ, ◌≡◌, refl, some, List, [], ◌∷◌, arith, and_then}
use diagonal.RbTree.{rotate_left, rotate_right, leaf, node, black}
use diagonal.RbTree.Insert.{
  rbtree_insert, descend, insert1, insert2, insert3, insert4, insert5, insert5_left, insert5_right,
}
use diagonal.RbTree.Walk.{
  rbtree_for_each, visit, rbtree_minimum, leftmost, inorder_successor, climb_left,
}
use diagonal.Hash.{
  RollingHash32, new_rolling_hash, rabin_karp_init32, rabin_karp_roll32, factor_loop,
  hash32_rabin_karp, rabin_karp_loop,
}
use diagonal.Vcdiff.Expand.{
  copy_code, Script, Expanded, diag_vcdiff_expand, sum_loop, pcodes_loop, pcode_step, add_bytes,
  run_bytes, copy_bytes, put,
}
use diagonal.Vcdiff.Contract.{
  PieceTree, piece, find_copies, copies_loop, roll_step, roll_loop, store, lookback, find_match,
  take_match, matches, back_loop, forward_loop, assemble, fill_loop, fill, diag_vcdiff_contract,
}
use diagonal.Vcdiff.Contract.RabinKarp.{rabin_karp, rabin_karp-IsRolling}
use diagonal.Vcdiff.Contract.Copies.{IsSearched}
use diagonal.Vcdiff.Contract.Search.{find_copies-IsSearched}
use diagonal.Vcdiff.Contract.Expands.{diag_vcdiff_contract-expand}

-- "abcabcd"
abbrev text : List ℕ
text = 97 ∷ 98 ∷ 99 ∷ 97 ∷ 98 ∷ 99 ∷ 100 ∷ []

abbrev hash : RollingHash32
hash = new_rolling_hash text 2 257

find_copies-IsSearched_example :
    (tree : PieceTree) × (find_copies rabin_karp text 2 hash ≡ some tree) × IsSearched text tree
find_copies-IsSearched_example =
    find_copies-IsSearched rabin_karp text 2 hash _ (rabin_karp-IsRolling text 257 1 (omega arith))
      (omega arith) (omega arith) (omega arith)

abbrev one_copy : PieceTree
one_copy = record { root = node black leaf (piece 3 (copy_code 3 0)) leaf; num_nodes = 1 }

text-copies : find_copies rabin_karp text 2 hash ≡ some one_copy
unfolding find_copies copies_loop roll_step roll_loop store lookback find_match take_match matches
    back_loop forward_loop rabin_karp rabin_karp_init32 rabin_karp_roll32 new_rolling_hash
    factor_loop rabin_karp_loop hash32_rabin_karp rbtree_insert
text-copies = refl

diag_vcdiff_contract-expand_example :
    (script : Script) × (diag_vcdiff_contract rabin_karp text 2 hash ≡ some script)
    × (diag_vcdiff_expand script ≡ Expanded.expanded text)
diag_vcdiff_contract-expand_example =
    diag_vcdiff_contract-expand rabin_karp text 2 hash _
      (rabin_karp-IsRolling text 257 1 (omega arith)) (omega arith) (omega arith) (omega arith)
      one_copy text-copies (omega arith, omega arith)

-- "aabaaa", for which the search finds COPYs to the indices 3 and 4 of two bytes each
abbrev overlapping : List ℕ
overlapping = 97 ∷ 97 ∷ 98 ∷ 97 ∷ 97 ∷ 97 ∷ []

-- The expansion has one byte more than the data.
overlapping-expanded :
    and_then
      (diag_vcdiff_contract rabin_karp overlapping 2 (new_rolling_hash overlapping 2 257))
      (λ script. some (diag_vcdiff_expand script))
    ≡ some (Expanded.expanded (97 ∷ 97 ∷ 98 ∷ 97 ∷ 97 ∷ 97 ∷ 97 ∷ []))
unfolding diag_vcdiff_contract assemble fill_loop fill find_copies copies_loop roll_step roll_loop
    store lookback find_match take_match matches back_loop forward_loop rabin_karp rabin_karp_init32
    rabin_karp_roll32 new_rolling_hash factor_loop rabin_karp_loop hash32_rabin_karp rbtree_insert
    descend insert1 insert2 insert3 insert4 insert5 insert5_left insert5_right rotate_left
    rotate_right rbtree_for_each visit rbtree_minimum leftmost inorder_successor climb_left
    diag_vcdiff_expand sum_loop pcodes_loop pcode_step add_bytes run_bytes copy_bytes put
overlapping-expanded = refl

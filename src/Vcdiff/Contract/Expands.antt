-- ===== src/Vcdiff/Contract/Expands.antt =====
-- Contraction and expansion together.
use diagonal.Base.{
  ℕ, ◌-◌, ◌/◌, ◌≤◌, ◌<◌, ◌≡◌, ◌^◌, refl, sym, ap, ◌∙◌, subst, none, some, List, [], ◌++◌, arith,
  length, ◌==◌, false, map, replicate, append-nil,
}
use diagonal.Base.Slices.{take_all}
use native.Mathlib.Nat.{le-div_iff_mul-le}
use diagonal.RbTree.{Entry}
use diagonal.RbTree.Entries.{entries}
use diagonal.RbTree.Walk.{rbtree_for_each}
use diagonal.RbTree.Walk.Order.{rbtree_for_each-entries}
use diagonal.Vcdiff.Expand.{Pcode, Script, Expanded, diag_vcdiff_expand}
use diagonal.Vcdiff.Expand.Append.{append_pcodes, total}
use diagonal.Vcdiff.Expand.Result.{diag_vcdiff_expand-append_pcodes}
use diagonal.Vcdiff.Contract.{
  Rolling, PieceTree, find_copies, fill, fill_loop, assemble, diag_vcdiff_contract,
}
use diagonal.Vcdiff.Contract.Copies.{IsSearched}
use diagonal.Vcdiff.Contract.Search.{IsRolling, find_copies-IsSearched}
use diagonal.Vcdiff.Contract.Pieces.{Fills, Fills-append_pcodes}
use diagonal.Vcdiff.Contract.Assemble.{IsSeparate, fill_loop-Walking, fill-Assembled}

module _ (bytes : List ℕ) (small : length bytes < 2 ^ 62) where
  script_of : PieceTree → Script
  script_of tree = record { source = none; pcodes = map (λ e. e.attr) (entries tree.root) }

  Fills-expand :
      (tree : PieceTree)
      → Fills bytes 0 (length bytes) (entries tree.root)
      → diag_vcdiff_expand (script_of tree) ≡ Expanded.expanded bytes
  unfolding script_of
  Fills-expand tree fills =
      let (same, are, sum) = Fills-append_pcodes bytes 0 (length bytes) (entries tree.root) fills in
      let all = same ∙ take_all bytes (length bytes) (omega arith) in
      let ps = map (λ (e : Entry ℕ Pcode). e.attr) (entries tree.root) in
      let none_left : total ps - length (append_pcodes none ps []) ≡ 0 =
        omega (arith, sum, ap length all) in
      diag_vcdiff_expand-append_pcodes (script_of tree) (omega (arith, sum, small)) are
      ∙ ap Expanded.expanded (
          ap (λ n. append_pcodes none ps [] ++ replicate n 0) none_left
          ∙ append-nil (append_pcodes none ps [])
          ∙ all)

  assemble_run :
      (tree tree' whole : PieceTree) (es : List (Entry ℕ Pcode)) (b : ℕ)
      → rbtree_for_each tree.num_nodes tree ≡ some es
      → fill_loop bytes es 0 tree ≡ some (b, tree')
      → fill bytes b (length bytes) tree' ≡ some whole
      → rbtree_for_each whole.num_nodes whole ≡ some (entries whole.root)
      → assemble bytes tree ≡ some (script_of whole)
  unfolding assemble script_of
  assemble_run tree tree' whole es b e f g h = rw (e, f, g, h)

  -- The script of a tree of separate COPYs.
  assemble-expand :
      (tree : PieceTree)
      → IsSearched bytes tree
      → IsSeparate bytes 0 (entries tree.root)
      → (script : Script) × (assemble bytes tree ≡ some script)
        × (diag_vcdiff_expand script ≡ Expanded.expanded bytes)
  unfolding assemble script_of
  assemble-expand tree searched separate =
      let es = entries tree.root in
      let walk =
        rbtree_for_each-entries tree tree.num_nodes (omega (arith, searched.is_pieces.counted)) in
      let (b, tree', run, within, w) =
        fill_loop-Walking bytes es 0 tree
          (record {
            pieces = searched.is_pieces;
            before = [];
            whole = refl;
            keys = tt;
            fills = refl;
            few = omega (arith, searched.at_most, small);
          })
          separate searched.are_copies in
      let filled = fill-Assembled bytes b tree' w within in
      let read =
        rbtree_for_each-entries filled.tree filled.tree.num_nodes
          (omega (arith, filled.pieces.counted)) in
      (
        script_of filled.tree,
        assemble_run tree tree' filled.tree es b walk run filled.filled read,
        Fills-expand filled.tree filled.fills,
      )

-- Contracting data and expanding the script gives the data back, if the COPYs that the search finds do
-- not overlap; for that the data have at least a window and are smaller than 2^62, and the hash
-- can be rolled along them.
pub diag_vcdiff_contract-expand :
    {S : Type 0} (rh : Rolling S) (bytes : List ℕ) (s_window : ℕ) (start : S) (At : ℕ → S → Type 0)
    → IsRolling rh bytes s_window start At
    → 0 < s_window
    → length bytes < 2 ^ 62
    → s_window ≤ length bytes
    → (tree : PieceTree) → find_copies rh bytes s_window start ≡ some tree
    → IsSeparate bytes 0 (entries tree.root)
    → (script : Script) × (diag_vcdiff_contract rh bytes s_window start ≡ some script)
      × (diag_vcdiff_expand script ≡ Expanded.expanded bytes)
unfolding diag_vcdiff_contract
diag_vcdiff_contract-expand rh bytes s_window start At rolling pos small fits tree found separate =
    let (tree', found', searched) =
      find_copies-IsSearched rh bytes s_window start At rolling pos small fits in
    let same : tree' ≡ tree = some-injective tree' tree (sym found' ∙ found) in
    let (script, made, expands) =
      assemble-expand bytes small tree (subst (IsSearched bytes) same searched) separate in
    let enough =
      (le-div_iff_mul-le {k = s_window} {x = 1} {y = length bytes} pos).1 (omega (arith, fits)) in
    let windows : (length bytes / s_window == 0) ≡ false = ground (arith, enough) in
    (script, rw (windows, found) made, expands)
  where
    some-injective : (t u : PieceTree) → some t ≡ some u → t ≡ u
    some-injective t u e = cc

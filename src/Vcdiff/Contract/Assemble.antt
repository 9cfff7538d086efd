-- ===== src/Vcdiff/Contract/Assemble.antt =====
-- The walk that puts the bytes between the COPYs into the tree.
use diagonal.Base.{
  ℕ, ◌+◌, ◌-◌, ◌≤◌, ◌<◌, ◌≡◌, ◌^◌, refl, sym, ap, ◌∙◌, subst, Option, some, List, [], ◌∷◌, ◌++◌,
  arith, All, length, ltb, lt→ltb, true, inl, inr, Bool-cases, append_assoc, append-nil,
}
use Prim.Native.Nat.{compare}
use diagonal.RbTree.{Entry}
use diagonal.RbTree.Entries.{entries}
use diagonal.RbTree.Insert.Sorted.{insert_sorted, insert_sorted-append_right, length-insert_sorted}
use diagonal.Vcdiff.Expand.{Pcode, pcode_size}
use diagonal.Vcdiff.Contract.{PieceTree, piece, pcode_add_new, fill, fill_loop}
use diagonal.Vcdiff.Contract.Copies.{by_number, IsPieces, insert-IsPieces, IsCopy}
use diagonal.Vcdiff.Contract.Pieces.{Fills, Fills-append, add-Writes, copy-Writes}

module _ (bytes : List ℕ) where
  -- The first of the pieces stands at `b` or behind it.
  abbrev Behind : ℕ → List (Entry ℕ Pcode) → Type 0
  Behind b [] = Unit
  Behind b (e ∷ es) = b ≤ e.key

  -- The pieces before `a` are in place, and `es` is still to be walked along.
  pub record Walking (a : ℕ) (es : List (Entry ℕ Pcode)) (tree : PieceTree) : Type 0 where
    pub pieces : IsPieces tree
    pub before : List (Entry ℕ Pcode)
    pub whole : entries tree.root ≡ before ++ es
    pub keys : All (λ e. e.key ≤ a) before
    pub fills : Fills bytes 0 a before
    pub few : length (entries tree.root) + length es < 2 ^ 63 - 1

  All-le :
      (a b : ℕ) (xs : List (Entry ℕ Pcode))
      → a ≤ b
      → All (λ e. e.key ≤ a) xs
      → All (λ e. e.key ≤ b) xs
  All-le a b [] h k = tt
  All-le a b (x ∷ xs) h (k, ks) = (omega (arith, h, k), All-le a b xs h ks)

  All-snoc :
      (P : Entry ℕ Pcode → Type 0) (xs : List (Entry ℕ Pcode)) (x : Entry ℕ Pcode)
      → All P xs
      → P x
      → All P (xs ++ (x ∷ []))
  All-snoc P [] x a p = (p, tt)
  All-snoc P (y ∷ ys) x (q, a) p = (q, All-snoc P ys x a p)

  insert_sorted-Behind :
      (f : Entry ℕ Pcode) (b : ℕ) (es : List (Entry ℕ Pcode))
      → f.key < b
      → Behind b es
      → insert_sorted compare by_number f es ≡ f ∷ es
  unfolding by_number
  insert_sorted-Behind f b [] h k = refl
  insert_sorted-Behind f b (e ∷ es) h k =
      let less : ltb f.key e.key ≡ true = lt→ltb f.key e.key (omega (arith, h, k)) in rw less

  insert_sorted-after :
      (f : Entry ℕ Pcode) (xs es : List (Entry ℕ Pcode))
      → All (λ e. e.key ≤ f.key) xs
      → insert_sorted compare by_number f (xs ++ es) ≡ xs ++ insert_sorted compare by_number f es
  unfolding by_number
  insert_sorted-after f xs es k = insert_sorted-append_right compare by_number f xs es k

  -- Filling up to `b` leaves one piece more at most.
  record Filled (b n : ℕ) (es : List (Entry ℕ Pcode)) (o : Option PieceTree) : Type 0 where
    tree : PieceTree
    filled : o ≡ some tree
    pieces : IsPieces tree
    before : List (Entry ℕ Pcode)
    whole : entries tree.root ≡ before ++ es
    keys : All (λ e. e.key ≤ b) before
    fills : Fills bytes 0 b before
    one_more : length (entries tree.root) ≤ n + 1

  fill-Filled :
      (a b : ℕ) (es : List (Entry ℕ Pcode)) (tree : PieceTree)
      → Walking a es tree
      → a ≤ b
      → b ≤ length bytes
      → Behind b es
      → Filled b (length (entries tree.root)) es (fill bytes a b tree)
  unfolding fill
  fill-Filled a b es tree w le within behind = elim (Bool-cases (ltb a b)) [
    | inr none_left ↦
        let same : a ≡ b = ground (arith, none_left, le) in
        record {
          tree = tree;
          filled = rw none_left;
          pieces = w.pieces;
          before = w.before;
          whole = w.whole;
          keys = All-le a b w.before le w.keys;
          fills = subst (λ k. Fills bytes 0 k w.before) same w.fills;
          one_more = omega arith;
        }
    | inl gap ↦
        let less : a < b = ground (arith, gap) in
        let f = piece a (pcode_add_new bytes (b - a) a) in
        let (tree', inserted, pieces, new) =
          insert-IsPieces tree f w.pieces (omega (arith, w.few)) in
        let upto : a + (b - a) ≡ b = omega (arith, le) in
        record {
          tree = tree';
          filled = rw gap inserted;
          pieces = pieces;
          before = w.before ++ (f ∷ []);
          whole =
              new
              ∙ ap (insert_sorted compare by_number f) w.whole
              ∙ insert_sorted-after f w.before es w.keys
              ∙ ap (λ t. w.before ++ t) (insert_sorted-Behind f b es less behind)
              ∙ sym (append_assoc w.before (f ∷ []) es);
          keys = All-snoc (λ e. e.key ≤ b) w.before f (All-le a b w.before le w.keys) le;
          fills =
              Fills-append bytes 0 a b w.before (f ∷ []) w.fills
                (add-Writes bytes a (b - a) (omega (arith, upto, within)), upto);
          one_more =
              omega (
                arith,
                ap length new,
                length-insert_sorted compare by_number f (entries tree.root),
              );
        }
  ]

  -- No COPY starts before the one in front of it has ended, and all end within the data.
  abbrev pub IsSeparate : ℕ → List (Entry ℕ Pcode) → Type 0
  IsSeparate a [] = a ≤ length bytes
  IsSeparate a (e ∷ es) = (a ≤ e.key) × IsSeparate (e.key + pcode_size e.attr) es

  IsSeparate-le : (a : ℕ) (es : List (Entry ℕ Pcode)) → IsSeparate a es → a ≤ length bytes
  IsSeparate-le a [] s = s
  IsSeparate-le a (e ∷ es) (h, s) = omega (arith, h, IsSeparate-le (e.key + pcode_size e.attr) es s)

  pub fill_loop-Walking :
      (es : List (Entry ℕ Pcode)) (a : ℕ) (tree : PieceTree)
      → Walking a es tree
      → IsSeparate a es
      → All (IsCopy bytes) es
      → (b : ℕ) × (tree' : PieceTree) × (fill_loop bytes es a tree ≡ some (b, tree'))
        × (b ≤ length bytes)
        × Walking b [] tree'
  unfolding fill_loop
  fill_loop-Walking [] a tree w s copies = (a, tree, refl, s, w)
  fill_loop-Walking (e ∷ es) a tree w (le, s) (copy, copies) =
      let end = IsSeparate-le (e.key + pcode_size e.attr) es s in
      let f = fill-Filled a e.key (e ∷ es) tree w le (omega (arith, end)) (omega arith) in
      let c = e.key + pcode_size e.attr in
      let (b, tree', run, within, w') =
        fill_loop-Walking es c f.tree
          (record {
            pieces = f.pieces;
            before = f.before ++ (e ∷ []);
            whole = f.whole ∙ sym (append_assoc f.before (e ∷ []) es);
            keys =
                All-snoc (λ x. x.key ≤ c) f.before e (All-le e.key c f.before (omega arith) f.keys)
                  (omega arith);
            fills =
                Fills-append bytes 0 e.key c f.before (e ∷ []) f.fills
                  (copy-Writes bytes e copy, refl);
            few = omega (arith, f.one_more, w.few);
          })
          s copies in
      (b, tree', rw (f.filled, fill_loop) run, within, w')

  -- The tree that the script is read from.
  pub record Assembled (o : Option PieceTree) : Type 0 where
    pub tree : PieceTree
    pub filled : o ≡ some tree
    pub pieces : IsPieces tree
    pub fills : Fills bytes 0 (length bytes) (entries tree.root)

  pub fill-Assembled :
      (b : ℕ) (tree : PieceTree)
      → Walking b [] tree
      → b ≤ length bytes
      → Assembled (fill bytes b (length bytes) tree)
  fill-Assembled b tree w le =
      let f = fill-Filled b (length bytes) [] tree w le (omega arith) tt in
      record {
        tree = f.tree;
        filled = f.filled;
        pieces = f.pieces;
        fills = subst (Fills bytes 0 (length bytes)) (sym (f.whole ∙ append-nil f.before)) f.fills;
      }

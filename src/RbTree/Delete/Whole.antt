-- ===== src/RbTree/Delete/Whole.antt =====
-- `diag_rbtree_delete` as a whole.
use diagonal.Base.{
  ℕ, suc, ◌-◌, ◌<◌, ◌≡◌, refl, sym, ap, ◌∙◌, subst, Bool, true, false, Option, some, List, [], ◌∷◌,
  ◌++◌, arith, append_assoc, append-nil, length, if◌then◌else◌, ◌⊎◌, inl, inr,
}
use diagonal.Base.Word.{sub_size, size_mod}
use diagonal.RbTree.{
  Color, red, black, Entry, Tree, leaf, node, Step, left_of, right_of, RbTree, is_red, turn_black,
  plug,
}
use diagonal.RbTree.Entries.{entries, before, after, entries-plug}
use diagonal.RbTree.Walk.{Place, rightmost, inorder_predecessor}
use diagonal.RbTree.Walk.Order.{ahead, behind}
use diagonal.RbTree.Delete.{
  is_leaf, assert_black, delete1, delete_target, delete_node, rbtree_delete,
}
use diagonal.RbTree.Delete.Entries.{Keeps, keeps, delete1-Keeps}

either : {A : Type 0} (b : Bool) (x : A) → (if b then x else x) ≡ x
either true x = refl
either false x = refl

module _ {K V : Type 0} where
  abbrev top_entry : Entry K V → Tree K V → Entry K V
  top_entry e leaf = e
  top_entry e (node c l e' r) = top_entry e' r

  -- The rightmost node below a place.
  record IsLast (t : Tree K V) (last : Entry K V) (path : List (Step K V)) : Type 0 where
    place : Place K V
    found : rightmost t path ≡ some place
    no_right : place.right ≡ leaf
    is_last : place.entry ≡ last
    all_ahead : ahead place ++ (place.entry ∷ []) ≡ before path ++ entries t
    all_behind : behind place ≡ after path

  rightmost-IsLast :
      (c : Color) (l : Tree K V) (e : Entry K V) (r : Tree K V) (path : List (Step K V))
      → IsLast (node c l e r) (top_entry e r) path
  unfolding rightmost
  rightmost-IsLast c l e leaf path = record {
    place = record { color = c; left = l; entry = e; right = leaf; path = path };
    found = refl;
    no_right = refl;
    is_last = refl;
    all_ahead = append_assoc (before path) (entries l) (e ∷ []);
    all_behind = refl;
  }
  rightmost-IsLast c l e (node rc rl re rr) path =
      let m = rightmost-IsLast rc rl re rr (right_of c l e ∷ path) in
      record {
        place = m.place;
        found = m.found;
        no_right = m.no_right;
        is_last = m.is_last;
        all_ahead = m.all_ahead ∙ simp append_assoc;
        all_behind = m.all_behind;
      }

  -- A node with one child at most, whose removal removes one entry of the original place.
  record IsTarget (p : Place K V) (o : Option (Place K V)) : Type 0 where
    place : Place K V
    found : o ≡ some place
    one_child : (place.left ≡ leaf) ⊎ (place.right ≡ leaf)
    same : ahead place ++ behind place ≡ ahead p ++ behind p

  delete_target-IsTarget : (p : Place K V) → IsTarget p (delete_target 2 p)
  unfolding delete_target inorder_predecessor
  delete_target-IsTarget p = from p.color p.left p.entry p.right p.path
    where
      from :
          (c : Color) (l : Tree K V) (e : Entry K V) (r : Tree K V) (path : List (Step K V))
          → IsTarget
              (record { color = c; left = l; entry = e; right = r; path = path })
              (delete_target 2 (record { color = c; left = l; entry = e; right = r; path = path }))
      from c leaf e r path = record { place = _; found = refl; one_child = inl refl; same = refl }
      from c (node lc ll le lr) e leaf path = record {
        place = _;
        found = refl;
        one_child = inr refl;
        same = refl;
      }
      from c (node lc ll le lr) e (node rc rl re rr) path =
          let r = node rc rl re rr in
          let first = rightmost-IsLast lc ll le lr (left_of c e r ∷ path) in
          let moved = rightmost-IsLast lc ll le lr (left_of c first.place.entry r ∷ path) in
          let own : moved.place.entry ≡ first.place.entry = moved.is_last ∙ sym first.is_last in
          let stop : is_leaf moved.place.right ≡ true = rw moved.no_right in
          record {
            place = moved.place;
            found =
                rw (first.found, moved.found, stop)
                  (either (is_leaf moved.place.left) (some moved.place));
            one_child = inr moved.no_right;
            same =
                (ap (λ t. ahead moved.place ++ t) moved.all_behind
                  ∙ ap (λ x. ahead moved.place ++ (x ∷ (entries r ++ after path))) (sym own)
                  ∙ sym (
                      append_assoc (ahead moved.place) (moved.place.entry ∷ [])
                        (entries r ++ after path))
                  ∙ ap (λ t. t ++ (entries r ++ after path)) moved.all_ahead);
          }

  delete_node-Keeps :
      (p : Place K V)
      → (p.left ≡ leaf) ⊎ (p.right ≡ leaf)
      → Keeps (ahead p ++ behind p) (delete_node p)
  unfolding delete_node assert_black
  delete_node-Keeps p one = from p.color p.left p.right one
    where
      removed :
          (t : Tree K V) → entries (plug t p.path) ≡ before p.path ++ (entries t ++ after p.path)
      removed t = entries-plug p.path t

      -- the child, black or red or none
      replaced :
          (c : Color) (t : Tree K V)
          → Keeps (before p.path ++ (entries t ++ after p.path)) (
              if is_red (node c leaf p.entry leaf)
              then some (plug t p.path)
              else if is_leaf t
              then some (plug t p.path)
              else if is_red t
              then some (plug (turn_black t) p.path)
              else assert_black t (delete1 (suc (length p.path)) t p.path))
      replaced red t = keeps _ (removed t)
      replaced black leaf = keeps _ (removed leaf)
      replaced black (node red l e r) = keeps _ (removed (node black l e r))
      replaced black (node black l e r) =
          subst (λ es. Keeps es (delete1 (suc (length p.path)) (node black l e r) p.path))
            (removed (node black l e r))
            (delete1-Keeps (suc (length p.path)) (node black l e r) p.path (omega arith) refl)

      from :
          (c : Color) (l r : Tree K V)
          → (l ≡ leaf) ⊎ (r ≡ leaf)
          → Keeps
              ((before p.path ++ entries l) ++ (entries r ++ after p.path))
              (delete_node (record p { color = c; left = l; right = r }))
      from c leaf r o =
          subst
            (λ es.
              Keeps (es ++ (entries r ++ after p.path))
                (delete_node (record p { color = c; left = leaf; right = r })))
            (sym (append-nil (before p.path))) (replaced c r)
      from c (node lc ll le lr) leaf o =
          subst
            (λ es.
              Keeps es
                (delete_node (record p { color = c; left = node lc ll le lr; right = leaf })))
            (sym (append_assoc (before p.path) (entries (node lc ll le lr)) (after p.path)))
            (replaced c (node lc ll le lr))
      from c (node lc ll le lr) (node rc rl re rr) (inl o) = absurd (not_leaf o)
        where
          not_leaf : ◌≡◌ {A = Tree K V} (node lc ll le lr) leaf → ⊥
          not_leaf e = cc
      from c (node lc ll le lr) (node rc rl re rr) (inr o) = absurd (not_leaf o)
        where
          not_leaf : ◌≡◌ {A = Tree K V} (node rc rl re rr) leaf → ⊥
          not_leaf e = cc

  -- Deleting a node of any tree, balanced or not, fails no assertion and takes just its entry out of
  -- the sequence; the count goes down by one.
  pub rbtree_delete-entries :
      (num_nodes : ℕ) (p : Place K V)
      → 0 < num_nodes
      → num_nodes < size_mod
      → (t : RbTree K V) × (rbtree_delete num_nodes p ≡ some t)
        × (entries t.root ≡ ahead p ++ behind p)
        × (t.num_nodes ≡ num_nodes - 1)
  unfolding rbtree_delete
  rbtree_delete-entries num_nodes p pos fits =
      let target = delete_target-IsTarget p in
      let (root, e, same) = kept (delete_node-Keeps target.place target.one_child) in
      (
        record { root = root; num_nodes = sub_size num_nodes 1 },
        rw (target.found, e),
        same ∙ target.same,
        omega arith,
      )
    where
      kept :
          {es : List (Entry K V)} {o : Option (Tree K V)}
          → Keeps es o
          → (t : Tree K V) × (o ≡ some t) × (entries t ≡ es)
      kept (keeps t e) = (t, refl, e)

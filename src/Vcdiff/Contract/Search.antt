-- ===== src/Vcdiff/Contract/Search.antt =====
-- The search for COPYs fails nowhere, ends, and finds parts that do repeat earlier ones.
use diagonal.Base.{
  ℕ, zero, suc, ◌+◌, ◌-◌, ◌*◌, ◌/◌, ◌%◌, ◌≤◌, ◌<◌, ◌≡◌, ◌^◌, refl, sym, ap, ◌∙◌, subst, true,
  Option, none, some, List, arith, All, length, ltb, lt→ltb, ◌==◌, inl, inr, ◌⊎◌, Bool-cases,
  get_elem?_of_lt, set, length-set, replicate, length-replicate,
}
use diagonal.Base.Word.{add_size, sub_size}
use native.Mathlib.Nat.{div-mul-le_self, le-div_iff_mul-le, add-div_right, suc-mul}
use Prim.Native.Nat.{compare}
use diagonal.RbTree.Entries.{entries}
use diagonal.RbTree.Insert.{rbtree_insert}
use diagonal.RbTree.Insert.Sequence.{rbtree_create}
use diagonal.RbTree.Insert.Sorted.{length-insert_sorted}
use diagonal.Vcdiff.Expand.{copy_code}
use diagonal.Vcdiff.Contract.{
  Rolling, PieceTree, piece, matches, back_loop, forward_loop, Found, store, roll_step, roll_loop,
  find_match, take_match, lookback, copies_loop, find_copies,
}
use diagonal.Vcdiff.Contract.Loops.{
  Agree, Agree-join, matches-Agree, back_loop-Agree, forward_loop-Agree,
}
use diagonal.Vcdiff.Contract.Copies.{
  by_number, IsPieces, create-IsPieces, insert-IsPieces, insert_sorted-All, IsCopy, IsSearched,
}

-- The hash can be rolled along the data: `At i s` is its state at the window from index `i` on.
pub record IsRolling {S : Type 0} (rh : Rolling S) (bytes : List ℕ) (s_window : ℕ) (start : S)
    (At : ℕ → S → Type 0) : Type 0 where
  pub init_at : At 0 (rh.init start).1
  pub roll_at :
      (i : ℕ) (s : S)
      → i + s_window < length bytes
      → At i s
      → (h : ℕ) × (s' : S) × (rh.roll s ≡ some (h, s')) × At (i + 1) s'

module _ {S : Type 0} (rh : Rolling S) (bytes : List ℕ) (s_window : ℕ) (start : S)
    (At : ℕ → S → Type 0) (rolling : IsRolling rh bytes s_window start At)
    (window_pos : 0 < s_window) (small : length bytes < 2 ^ 62) where
  -- The state with the hash at `i` and at most `n` COPYs.
  record Good (i n : ℕ) (st : Found S) : Type 0 where
    hash_at : At i st.hash
    length_arr : length st.arr ≡ length bytes / s_window
    pieces : IsPieces st.tree
    copies : All (IsCopy bytes) (entries st.tree.root)
    few : length (entries st.tree.root) ≤ n

  window_index : (i : ℕ) → i + s_window ≤ length bytes → i / s_window < length bytes / s_window
  window_index i h =
      let whole = div-mul-le_self (i + s_window) s_window in
      let le =
        (le-div_iff_mul-le {k = s_window} {x = (i + s_window) / s_window} {y = length bytes}
            window_pos).1
          (omega (arith, whole, h)) in
      omega (arith, le, add-div_right i window_pos)

  store_ok :
      (i h : ℕ) (arr : List ℕ)
      → i + s_window ≤ length bytes
      → length arr ≡ length bytes / s_window
      → (arr' : List ℕ) × (store rh bytes s_window i h arr ≡ some arr')
        × (length arr' ≡ length bytes / s_window)
  unfolding store
  store_ok i h arr fits len = elim (Bool-cases (i % s_window == 0)) [
    | inl aligned ↦
        let inside : ltb (i / s_window) (length arr) ≡ true =
          lt→ltb (i / s_window) (length arr) (omega (arith, window_index i fits, len)) in
        (set arr (i / s_window) h, rw (aligned, inside), length-set arr (i / s_window) h ∙ len)
    | inr other ↦ (arr, rw other, len)
  ]

  roll_step-Good :
      (i n : ℕ) (st : Found S)
      → i + 1 + s_window ≤ length bytes
      → Good i n st
      → (h : ℕ) × (st' : Found S) × (roll_step rh bytes s_window (i + 1) st ≡ some (h, st'))
        × Good (i + 1) n st'
  unfolding roll_step
  roll_step-Good i n st fits g =
      let (h, s', rolled, at) = rolling.roll_at i st.hash (omega (arith, fits)) g.hash_at in
      let (arr', stored, len) = store_ok (i + 1) h st.arr fits g.length_arr in
      (
        h,
        record st { arr = arr'; hash = s' },
        rw (rolled, stored),
        record {
          hash_at = at;
          length_arr = len;
          pieces = g.pieces;
          copies = g.copies;
          few = g.few;
        },
      )

  roll_loop-Good :
      (r i n : ℕ) (st : Found S)
      → i + r + s_window ≤ length bytes
      → Good i n st
      → (st' : Found S) × (roll_loop rh bytes s_window r (i + 1) st ≡ some st') × Good (i + r) n st'
  unfolding roll_loop
  roll_loop-Good zero i n st fits g =
      (st, refl, subst (λ k. Good k n st) {x = i} {y = i + 0} (omega arith) g)
  roll_loop-Good (suc r) i n st fits g =
      let (h, st', rolled, g') = roll_step-Good i n st (omega (arith, fits)) g in
      let (st'', rest, g'') = roll_loop-Good r (i + 1) n st' (omega (arith, fits)) g' in
      (
        st'',
        rw (rolled, roll_loop) rest,
        subst (λ k. Good k n st'') {x = i + 1 + r} {y = i + suc r} (omega arith) g'',
      )

  -- The outcome of the loop over the windows before `i`.
  abbrev Matched : ℕ → Option (Option ℕ) → Type 0
  Matched i o =
      (o ≡ some none)
      ⊎ ((k : ℕ) × (o ≡ some (some k))
          × (k * s_window + s_window ≤ i)
          × Agree bytes (i - k * s_window) (k * s_window) (k * s_window + s_window))

  find_match-Matched :
      (n k i h : ℕ) (arr : List ℕ)
      → i + s_window ≤ length bytes
      → k + n ≤ i / s_window
      → length arr ≡ length bytes / s_window
      → Matched i (find_match rh bytes s_window n k i h arr)
  unfolding find_match
  find_match-Matched zero k i h arr fits le len = inl refl
  find_match-Matched (suc n) k i h arr fits le len =
      let (v, at) = get_elem?_of_lt arr k (omega (arith, le, window_index i fits, len)) in
      let rest = find_match-Matched n (k + 1) i h arr fits (omega (arith, le)) len in
      let index =
        (le-div_iff_mul-le {k = s_window} {x = suc k} {y = i} window_pos).0 (omega (arith, le)) in
      let below : k * s_window + s_window ≤ i = omega (arith, index, suc-mul k s_window) in
      let (r, compared, agree) =
        matches-Agree bytes (i - k * s_window) (k * s_window) s_window
          (omega (arith, below, fits)) in
      let here : i - k * s_window + k * s_window ≡ i = omega (arith, below) in
      let compared' = ap (λ j. matches bytes j (k * s_window) s_window) (sym here) ∙ compared in
      elim (Bool-cases (h == v)) [
        | inr other ↦ rw (at, other) rest
        | inl same ↦ elim (Bool-cases r) [
          | inr differ ↦ rw (at, same, compared', differ) rest
          | inl equal ↦ rw (at, same, compared', equal) (inr (k, refl, below, agree equal))
        ]
      ]

  take_match_run :
      (k i j head tail : ℕ) (st st' : Found S) (tree : PieceTree)
      → back_loop bytes (i - k * s_window) (k * s_window) ≡ some head
      → forward_loop bytes (i - k * s_window) (i + s_window) (length bytes - (i + s_window))
        ≡ some tail
      → rbtree_insert compare st.tree (
          piece (add_size head 1) (
            copy_code
              (sub_size (sub_size tail head) 1)
              (add_size (sub_size head (i - k * s_window)) 1)))
        ≡ some tree
      → roll_loop rh bytes s_window
          (tail - s_window + 1 - (i + 1))
          (i + 1)
          (record st { tree = tree })
        ≡ some st'
      → i + 1 + (tail - s_window + 1 - (i + 1)) ≡ j
      → take_match rh bytes s_window k i st ≡ some (j, st')
  unfolding take_match
  take_match_run k i j head tail st st' tree a b c d e = rw (a, b, c, d, e)

  -- After a match the longest repetition around it becomes a COPY.
  take_match-Good :
      (k i n : ℕ) (st : Found S)
      → i + s_window ≤ length bytes
      → n < 2 ^ 62
      → k * s_window + s_window ≤ i
      → Agree bytes (i - k * s_window) (k * s_window) (k * s_window + s_window)
      → Good i n st
      → (j : ℕ) × (st' : Found S) × (take_match rh bytes s_window k i st ≡ some (j + 1, st'))
        × (i ≤ j)
        × (j + s_window ≤ length bytes)
        × Good j (n + 1) st'
  take_match-Good k i n st fits room below agree g =
      let b = k * s_window in
      let m = i - b in
      let (lo, went_back, lo_le, before) =
        back_loop-Agree bytes m b (omega (arith, below, window_pos)) (omega (arith, below, fits))
          (omega (arith, small)) in
      let left = length bytes - (i + s_window) in
      let (hi, went_on, le_hi, hi_le, after) =
        forward_loop-Agree bytes m (b + s_window) left (omega (arith, below, fits)) in
      let from : i + s_window ≡ m + (b + s_window) = omega (arith, below) in
      let went_on' = ap (λ j. forward_loop bytes m j left) from ∙ went_on in
      let key : add_size (m + lo - 1) 1 ≡ m + lo =
        omega (arith, below, window_pos, lo_le, fits, small) in
      let size : sub_size (sub_size (m + hi) (m + lo - 1)) 1 ≡ hi - lo =
        omega (arith, below, window_pos, lo_le, le_hi, hi_le, fits, small) in
      let addr : add_size (sub_size (m + lo - 1) m) 1 ≡ lo =
        omega (arith, below, window_pos, lo_le, fits, small) in
      let e = piece (m + lo) (copy_code (hi - lo) lo) in
      let upto : lo + (hi - lo) ≡ hi = omega (arith, lo_le, le_hi) in
      let copy : IsCopy bytes e = record {
        lo = lo;
        size = hi - lo;
        distance = m;
        is = refl;
        earlier = omega (arith, below, window_pos);
        some_bytes = omega (arith, lo_le, le_hi, window_pos);
        within = omega (arith, below, lo_le, le_hi, hi_le, fits);
        agree = subst (Agree bytes m lo) (sym upto) (
            Agree-join bytes m lo b hi before (Agree-join bytes m b (b + s_window) hi agree after));
      } in
      let (tree, inserted, pieces, new) =
        insert-IsPieces st.tree e g.pieces (omega (arith, g.few, room)) in
      let inserted' : rbtree_insert compare st.tree (
            piece (add_size (m + lo - 1) 1) (
              copy_code (sub_size (sub_size (m + hi) (m + lo - 1)) 1)
                (add_size (sub_size (m + lo - 1) m) 1)))
          ≡ some tree =
        rw (key, size, addr) inserted in
      let rounds = m + hi - s_window + 1 - (i + 1) in
      let (st', rolled, g') =
        roll_loop-Good rounds i (n + 1) (record st { tree = tree })
          (omega (arith, below, le_hi, hi_le, fits))
          (record {
            hash_at = g.hash_at;
            length_arr = g.length_arr;
            pieces = pieces;
            copies =
                subst (All (IsCopy bytes)) (sym new)
                  (insert_sorted-All (IsCopy bytes) e (entries st.tree.root) copy g.copies);
            few = omega (
              arith,
              ap length new,
              length-insert_sorted compare by_number e (entries st.tree.root),
              g.few,
            );
          }) in
      (
        i + rounds,
        st',
        take_match_run k i (i + rounds + 1) (m + lo - 1) (m + hi) st st' tree went_back went_on'
            inserted' rolled (omega arith),
        omega arith,
        omega (arith, below, le_hi, hi_le, fits),
        g',
      )

  lookback-Good :
      (i n h : ℕ) (st : Found S)
      → i + s_window ≤ length bytes
      → n < 2 ^ 62
      → Good i n st
      → (j : ℕ) × (st' : Found S) × (lookback rh bytes s_window i h st ≡ some (j + 1, st'))
        × (i ≤ j)
        × (j + s_window ≤ length bytes)
        × Good j (n + 1) st'
  unfolding lookback
  lookback-Good i n h st fits room g =
      elim (find_match-Matched (i / s_window) 0 i h st.arr fits (omega arith) g.length_arr) [
        | inl missed ↦ (i, st, rw missed, omega arith, fits, weaken)
        | inr (k, found, below, agree) ↦
            let (j, st', taken, le, fits', g') = take_match-Good k i n st fits room below agree g in
            (j, st', rw found taken, le, fits', g')
      ]
    where
      weaken : Good i (n + 1) st
      weaken = record {
        hash_at = g.hash_at;
        length_arr = g.length_arr;
        pieces = g.pieces;
        copies = g.copies;
        few = omega (arith, g.few);
      }

  copies_loop_round :
      (fuel i h j : ℕ) (st st1 st2 st' : Found S)
      → ltb i (length bytes - s_window + 1) ≡ true
      → roll_step rh bytes s_window i st ≡ some (h, st1)
      → lookback rh bytes s_window i h st1 ≡ some (j, st2)
      → copies_loop rh bytes s_window fuel j st2 ≡ some st'
      → copies_loop rh bytes s_window (suc fuel) i st ≡ some st'
  unfolding copies_loop
  copies_loop_round fuel i h j st st1 st2 st' a b c d = rw (copies_loop, a, b, c) d

  copies_loop-Good :
      (fuel j n : ℕ) (st : Found S)
      → length bytes < fuel + j
      → n ≤ j
      → j + s_window ≤ length bytes
      → Good j n st
      → (st' : Found S) × (copies_loop rh bytes s_window fuel (j + 1) st ≡ some st')
        × IsSearched bytes st'.tree
  unfolding copies_loop
  copies_loop-Good zero j n st enough le fits g = absurd (omega (arith, enough, fits))
  copies_loop-Good (suc fuel) j n st enough le fits g =
      elim (Bool-cases (ltb (j + 1) (length bytes - s_window + 1))) [
        | inr over ↦ (
          st,
          rw (copies_loop, over),
          record {
            is_pieces = g.pieces;
            are_copies = g.copies;
            at_most = omega (arith, g.few, le, fits);
          },
        )
        | inl on ↦
            let room : j + 1 + s_window ≤ length bytes = ground (arith, on) in
            let (h, st1, rolled, g1) = roll_step-Good j n st room g in
            let (j', st2, looked, le', fits', g2) =
              lookback-Good (j + 1) n h st1 room (omega (arith, le, fits, small)) g1 in
            let (st', rest, searched) =
              copies_loop-Good fuel j' (n + 1) st2 (omega (arith, enough, le'))
                (omega (arith, le, le')) fits' g2 in
            (
              st',
              copies_loop_round fuel (j + 1) h (j' + 1) st st1 st2 st' on rolled looked rest,
              searched,
            )
      ]

  -- The search for COPYs ends, accesses nothing outside its arrays, and every COPY that it finds
  -- repeats bytes that stand earlier in the data, if the data have at least a window and are
  -- smaller than 2^62, and the hash can be rolled along them.
  pub find_copies-IsSearched :
      s_window ≤ length bytes
      → (tree : PieceTree) × (find_copies rh bytes s_window start ≡ some tree)
        × IsSearched bytes tree
  unfolding find_copies
  find_copies-IsSearched fits =
      let arr = set (replicate (length bytes / s_window) 0) 0 (rh.init start).0 in
      let (st, run, searched) =
        copies_loop-Good (suc (length bytes)) 0 0
          (record { arr = arr; hash = (rh.init start).1; tree = rbtree_create }) (omega arith)
          (omega arith) (omega (arith, fits))
          (record {
            hash_at = rolling.init_at;
            length_arr =
                length-set (replicate (length bytes / s_window) 0) 0 (rh.init start).0
                ∙ length-replicate (length bytes / s_window) 0;
            pieces = create-IsPieces;
            copies = tt;
            few = omega arith;
          }) in
      (st.tree, rw run, searched)

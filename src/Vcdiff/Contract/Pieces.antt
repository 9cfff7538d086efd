-- ===== src/Vcdiff/Contract/Pieces.antt =====
-- Instructions that write the data piece by piece.
use diagonal.Base.{
  ℕ, zero, suc, ◌+◌, ◌≤◌, ◌<◌, ◌≡◌, refl, sym, ap, ◌∙◌, subst, none, some, List, [], ◌∷◌, ◌++◌,
  arith, length, map, take, drop, get_elem?, get_or, length-take,
}
use diagonal.Base.Slices.{slice, take_all, take-suc, length-slice}
use diagonal.RbTree.{Entry}
use diagonal.Vcdiff.Expand.{Pcode, pcode_size}
use diagonal.Vcdiff.Expand.Append.{
  append_copy, append_pcode, append_pcodes, total, IsPcode, ArePcodes,
}
use diagonal.Vcdiff.Contract.{pcode_add_new}
use diagonal.Vcdiff.Contract.Loops.{Agree}
use diagonal.Vcdiff.Contract.Copies.{IsCopy}

take-nil : (n : ℕ) → take {A = ℕ} n [] ≡ []
take-nil zero = refl
take-nil (suc n) = refl

module _ (bytes : List ℕ) where
  pub take-slice : (a n : ℕ) → take a bytes ++ slice bytes a n ≡ take (a + n) bytes
  take-slice a n = from a bytes
    where
      from : (k : ℕ) (xs : List ℕ) → take k xs ++ take n (drop k xs) ≡ take (k + n) xs
      from zero xs = ap (λ j. take j xs) {x = n} {y = 0 + n} (omega arith)
      from (suc k) [] = take-nil n ∙ sym (take-nil (suc k + n))
      from (suc k) (x ∷ xs) =
          ap (λ t. x ∷ t) (from k xs)
          ∙ ap (λ j. take j (x ∷ xs)) {x = suc (k + n)} {y = suc k + n} (omega arith)

  -- The instruction, run when the bytes before `a` are written, writes those that follow.
  pub record Writes (a : ℕ) (p : Pcode) : Type 0 where
    pub written : append_pcode none p (take a bytes) ≡ take (a + pcode_size p) bytes
    pub is_pcode : IsPcode none (take a bytes) p

  pub add-Writes : (a n : ℕ) → a + n ≤ length bytes → Writes a (pcode_add_new bytes n a)
  add-Writes a n h =
      let len = length-slice bytes a n h in
      record {
        written =
            ap (λ t. take a bytes ++ t) (take_all (slice bytes a n) n (omega (arith, len)))
            ∙ take-slice a n;
        is_pcode = omega (arith, len);
      }

  pub get_or-take :
      (a i : ℕ) → i < a → a ≤ length bytes → get_elem? bytes i ≡ some (get_or (take a bytes) i 0)
  get_or-take a i = from a i bytes
    where
      from :
          (b j : ℕ) (xs : List ℕ)
          → j < b
          → b ≤ length xs
          → get_elem? xs j ≡ some (get_or (take b xs) j 0)
      from zero j xs h k = absurd (omega (arith, h))
      from (suc b) j [] h k = absurd (omega (arith, k))
      from (suc b) zero (x ∷ xs) h k = refl
      from (suc b) (suc j) (x ∷ xs) h k = from b j xs (omega (arith, h)) (omega (arith, k))

  -- Byte by byte, over the bytes that the COPY itself writes.
  pub append_copy-take :
      (n m lo : ℕ)
      → 0 < m
      → m + lo + n ≤ length bytes
      → Agree bytes m lo (lo + n)
      → append_copy none n lo (take (m + lo) bytes) ≡ take (m + lo + n) bytes
  append_copy-take zero m lo pos h agree =
      ap (λ j. take j bytes) {x = m + lo} {y = m + lo + 0} (omega arith)
  append_copy-take (suc n) m lo pos h agree =
      let next =
        sym (agree lo (omega arith) (omega arith))
        ∙ get_or-take (m + lo) lo (omega (arith, pos)) (omega (arith, h)) in
      let one =
        sym (take-suc bytes (m + lo) _ next)
        ∙ ap (λ j. take j bytes) {x = suc (m + lo)} {y = m + (lo + 1)} (omega arith) in
      ap (append_copy none n (lo + 1)) one
      ∙ append_copy-take n m (lo + 1) pos (omega (arith, h))
          (λ i k l. agree i (omega (arith, k)) (omega (arith, l)))
      ∙ ap (λ j. take j bytes) {x = m + (lo + 1) + n} {y = m + lo + suc n} (omega arith)

  pub copy-Writes : (e : Entry ℕ Pcode) → IsCopy bytes e → Writes e.key e.attr
  copy-Writes e c =
      subst (λ f. Writes f.key f.attr) (sym c.is)
        (record {
          written = append_copy-take c.size c.distance c.lo c.earlier c.within c.agree;
          is_pcode = omega (arith, length-take (c.distance + c.lo) bytes, c.within, c.earlier);
        })

  -- The pieces follow one another from `a` to `b`.
  abbrev pub Fills : ℕ → ℕ → List (Entry ℕ Pcode) → Type 0
  Fills a b [] = a ≡ b
  Fills a b (e ∷ es) = Writes a e.attr × Fills (a + pcode_size e.attr) b es

  pub Fills-append :
      (a b c : ℕ) (xs ys : List (Entry ℕ Pcode))
      → Fills a b xs
      → Fills b c ys
      → Fills a c (xs ++ ys)
  Fills-append a b c [] ys f g = subst (λ k. Fills k c ys) (sym f) g
  Fills-append a b c (x ∷ xs) ys (w, f) g = (w, Fills-append (a + pcode_size x.attr) b c xs ys f g)

  pub Fills-append_pcodes :
      (a b : ℕ) (es : List (Entry ℕ Pcode))
      → Fills a b es
      → (append_pcodes none (map (λ e. e.attr) es) (take a bytes) ≡ take b bytes)
        × ArePcodes none (map (λ e. e.attr) es) (take a bytes)
        × (a + total (map (λ e. e.attr) es) ≡ b)
  Fills-append_pcodes a b [] f = (ap (λ k. take k bytes) f, tt, omega (arith, f))
  Fills-append_pcodes a b (e ∷ es) (w, f) =
      let (same, are, sum) = Fills-append_pcodes (a + pcode_size e.attr) b es f in
      (
        ap (append_pcodes none (map (λ x. x.attr) es)) w.written ∙ same,
        (w.is_pcode, subst (ArePcodes none (map (λ x. x.attr) es)) (sym w.written) are),
        omega (arith, sum),
      )

-- ===== src/Line/Scan.antt =====
-- The lines of a text, and what the scan for a newline finds.
use diagonal.Base.{
  ℕ, zero, suc, ◌+◌, ◌-◌, ◌≤◌, ◌<◌, ◌≡◌, refl, sym, ap, ◌∙◌, some, List, [], ◌∷◌, ◌++◌, arith, inl,
  inr, ◌==◌, if◌then◌else◌, Bool-cases, length, get_elem?, get_elem?_of_lt, take,
}
use diagonal.Base.Slices.{slice, drop_cons}
use diagonal.Line.{newline, scan}

-- The bytes before the first newline.
unfoldable pub first_line : List ℕ → List ℕ
first_line [] = []
first_line (x ∷ xs) = if x == newline then [] else x ∷ first_line xs

-- The bytes behind the first newline.
unfoldable pub other_lines : List ℕ → List ℕ
other_lines [] = []
other_lines (x ∷ xs) = if x == newline then xs else other_lines xs

pub data Scanned (buf : List ℕ) (h n : ℕ) : Type 0 where
  found :
      (at : ℕ)
      → h ≤ at
      → at < h + n
      → scan buf h n ≡ some at
      → ((zs : List ℕ) → first_line (slice buf h n ++ zs) ≡ slice buf h (at - h))
      → ((zs : List ℕ)
          → other_lines (slice buf h n ++ zs) ≡ slice buf (suc at) (h + n - suc at) ++ zs)
      → Scanned buf h n
  missing :
      scan buf h n ≡ some (h + n)
      → ((zs : List ℕ) → first_line (slice buf h n ++ zs) ≡ slice buf h n ++ first_line zs)
      → ((zs : List ℕ) → other_lines (slice buf h n ++ zs) ≡ other_lines zs)
      → Scanned buf h n

slice-suc :
    (buf : List ℕ) (h n x : ℕ)
    → get_elem? buf h ≡ some x
    → slice buf h (suc n) ≡ x ∷ slice buf (suc h) n
slice-suc buf h n x e =
    ap (take (suc n)) (drop_cons buf h x e)
    ∙ ap (λ k. x ∷ slice buf k n) {x = h + 1} {y = suc h} (omega arith)

pub scan-Scanned : (buf : List ℕ) (h n : ℕ) → h + n ≤ length buf → Scanned buf h n
unfolding scan first_line other_lines
scan-Scanned buf h zero inside = Scanned.missing (ap some (omega arith)) (λ zs. refl) (λ zs. refl)
scan-Scanned buf h (suc n) inside =
    let (x, e) = get_elem?_of_lt buf h (omega (arith, inside)) in
    let cut = slice-suc buf h n x e in
    elim (Bool-cases (x == newline)) [
      | inl stop ↦
          Scanned.found h (omega arith) (omega arith) (rw (scan, e, stop))
            (λ zs. rw (cut, stop, none_before h))
            (λ zs. rw (cut, stop, ap (λ k. slice buf (suc h) k) (behind h n)))
      | inr go ↦ elim (scan-Scanned buf (suc h) n (omega (arith, inside))) [
        | Scanned.missing r first other ↦
            Scanned.missing (rw (scan, e, go, r) (ap some (omega arith)))
              (λ zs. rw (cut, go, first zs)) (λ zs. rw (cut, go, other zs))
        | Scanned.found at low high r first other ↦
            Scanned.found at (omega (arith, low)) (omega (arith, high)) (rw (scan, e, go, r))
              (λ zs. rw (cut, go, first zs) (sym (longer at x e low)))
              (λ zs. rw (cut, go, other zs) (ap (λ k. slice buf (suc at) k ++ zs) (omega arith)))
      ]
    ]
  where
    none_before : (h : ℕ) → h - h ≡ 0
    none_before h = omega arith

    behind : (h n : ℕ) → h + suc n - suc h ≡ n
    behind h n = omega arith

    longer :
        (at x : ℕ)
        → get_elem? buf h ≡ some x
        → suc h ≤ at
        → slice buf h (at - h) ≡ x ∷ slice buf (suc h) (at - suc h)
    longer at x e low =
        ap (slice buf h) {x = at - h} {y = suc (at - suc h)} (omega (arith, low))
        ∙ slice-suc buf h (at - suc h) x e

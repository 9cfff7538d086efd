-- ===== src/Vcdiff/CodeTable/Laws.antt =====
-- The transfer form of a code table, and the shape of the default table.
use diagonal.Base.{
  ℕ, zero, suc, ◌+◌, ◌-◌, ◌<◌, ◌≡◌, refl, sym, ap, ap₂, ◌∙◌, List, [], ◌∷◌, ◌++◌, map, arith,
  length, length-map, get_or, get_elem?, some, append-nil,
}
use mathlib.Core.Option.{some-injective}
use diagonal.Vcdiff.CodeTable.{
  Code, upto, entry_of, code_table_entries_to_string, code_table_entries_from_string,
  default_code_table_entries,
}

get_or-append_left :
    (xs ys : List ℕ) (i : ℕ) → i < length xs → get_or (xs ++ ys) i 0 ≡ get_or xs i 0
get_or-append_left [] ys i h = elim h [ ]
get_or-append_left (x ∷ xs) ys zero h = refl
get_or-append_left (x ∷ xs) ys (suc i) h = get_or-append_left xs ys i (omega arith)

get_or-append_right :
    (xs ys : List ℕ) (n i j : ℕ) → length xs ≡ n → j ≡ n + i → get_or (xs ++ ys) j 0 ≡ get_or ys i 0
get_or-append_right [] ys n i j e k = ap (λ t. get_or ys t 0) (omega arith)
get_or-append_right (x ∷ xs) ys n i zero e k = absurd (omega arith)
get_or-append_right (x ∷ xs) ys n i (suc j) e k =
    get_or-append_right xs ys (n - 1) i j (omega arith) (omega arith)

-- A list is rebuilt from its elements by number.
map-upto :
    (xs : List Code) (first n : ℕ) (f : ℕ → Code)
    → n ≡ length xs
    → ((i : ℕ) (x : Code) → get_elem? xs i ≡ some x → f (first + i) ≡ x)
    → map f (upto first n) ≡ xs
map-upto [] first zero f e h = refl
map-upto [] first (suc n) f e h = absurd (omega arith)
map-upto (x ∷ xs) first zero f e h = absurd (omega arith)
map-upto (x ∷ xs) first (suc n) f e h =
    let here : first + 0 ≡ first = omega arith in
    ap₂ (λ y ys. y ∷ ys) (ap f (sym here) ∙ h 0 x refl)
      (map-upto xs (suc first) n f (omega arith)
        λ i y e'. let k : suc first + i ≡ first + suc i = omega arith in ap f k ∙ h (suc i) y e')

-- Column `g` of the entries, read at row `i`.
column :
    (g : Code → ℕ) (es : List Code) (rest : List ℕ) (i : ℕ) (c : Code)
    → get_elem? es i ≡ some c
    → get_or (map g es ++ rest) i 0 ≡ g c
column g [] rest i c e = ground arith
column g (x ∷ es) rest zero c e = ap g (some-injective _ _ e)
column g (x ∷ es) rest (suc i) c e = column g es rest i c e

last_column :
    (g : Code → ℕ) (es : List Code) (i : ℕ) (c : Code)
    → get_elem? es i ≡ some c
    → get_or (map g es) i 0 ≡ g c
last_column g es i c e = rw (← append-nil (map g es)) (column g es [] i c e)

skip :
    (g : Code → ℕ) (es : List Code) (rest : List ℕ) (i j : ℕ)
    → length es ≡ 256
    → j ≡ 256 + i
    → get_or (map g es ++ rest) j 0 ≡ get_or rest i 0
skip g es rest i j full e =
    get_or-append_right (map g es) rest 256 i j (omega (arith, length-map g es)) e

-- The string from its second column on, and so on.
abbrev from_mode1 : List Code → List ℕ
from_mode1 es = map (λ c. c.mode1) es ++ map (λ c. c.mode2) es

abbrev from_size2 : List Code → List ℕ
from_size2 es = map (λ c. c.size2) es ++ from_mode1 es

abbrev from_size1 : List Code → List ℕ
from_size1 es = map (λ c. c.size1) es ++ from_size2 es

abbrev from_inst2 : List Code → List ℕ
from_inst2 es = map (λ c. c.inst2) es ++ from_size1 es

module _ (es : List Code) (full : length es ≡ 256) where
  past_inst1 :
      (i j : ℕ)
      → j ≡ 256 + i
      → get_or (code_table_entries_to_string es) j 0 ≡ get_or (from_inst2 es) i 0
  unfolding code_table_entries_to_string
  past_inst1 i j e = skip (λ c. c.inst1) es (from_inst2 es) i j full e

  past_inst2 :
      (i j : ℕ)
      → j ≡ 512 + i
      → get_or (code_table_entries_to_string es) j 0 ≡ get_or (from_size1 es) i 0
  past_inst2 i j e =
      past_inst1 (256 + i) j (omega arith) ∙ skip (λ c. c.inst2) es (from_size1 es) i _ full refl

  past_size1 :
      (i j : ℕ)
      → j ≡ 768 + i
      → get_or (code_table_entries_to_string es) j 0 ≡ get_or (from_size2 es) i 0
  past_size1 i j e =
      past_inst2 (256 + i) j (omega arith) ∙ skip (λ c. c.size1) es (from_size2 es) i _ full refl

  past_size2 :
      (i j : ℕ)
      → j ≡ 1024 + i
      → get_or (code_table_entries_to_string es) j 0 ≡ get_or (from_mode1 es) i 0
  past_size2 i j e =
      past_size1 (256 + i) j (omega arith) ∙ skip (λ c. c.size2) es (from_mode1 es) i _ full refl

  past_mode1 :
      (i j : ℕ)
      → j ≡ 1280 + i
      → get_or (code_table_entries_to_string es) j 0 ≡ get_or (map (λ c. c.mode2) es) i 0
  past_mode1 i j e =
      past_size2 (256 + i) j (omega arith)
      ∙ skip (λ c. c.mode1) es (map (λ c. c.mode2) es) i _ full refl

  first_column :
      (i : ℕ) (c : Code)
      → get_elem? es i ≡ some c
      → get_or (code_table_entries_to_string es) i 0 ≡ c.inst1
  unfolding code_table_entries_to_string
  first_column i c e = column (λ c. c.inst1) es (from_inst2 es) i c e

  entry_of-to_string :
      (i : ℕ) (c : Code)
      → get_elem? es i ≡ some c
      → entry_of (code_table_entries_to_string es) i ≡ c
  unfolding entry_of
  entry_of-to_string i c e = rw (
    first_column i c e,
    past_inst2 i (512 + i) refl ∙ column (λ c. c.size1) es (from_size2 es) i c e,
    past_size2 i (1024 + i) refl ∙ column (λ c. c.mode1) es (map (λ c. c.mode2) es) i c e,
    past_inst1 i (256 + i) refl ∙ column (λ c. c.inst2) es (from_size1 es) i c e,
    past_size1 i (768 + i) refl ∙ column (λ c. c.size2) es (from_mode1 es) i c e,
    past_mode1 i (1280 + i) refl ∙ last_column (λ c. c.mode2) es i c e,
  )

-- A table of 256 entries survives the way through its string.
pub code_table_entries_from_string-to_string :
    (entries : List Code)
    → length entries ≡ 256
    → code_table_entries_from_string (code_table_entries_to_string entries) ≡ entries
unfolding code_table_entries_from_string
code_table_entries_from_string-to_string es full =
    map-upto es 0 256 (entry_of (code_table_entries_to_string es)) (omega arith)
      λ i c e. let k : 0 + i ≡ i = omega arith in rw k (entry_of-to_string es full i c e)

-- Lines 1 to 21 of the table's comments make up 256 entries.
length-default_code_table_entries : length default_code_table_entries ≡ 256
unfolding default_code_table_entries
length-default_code_table_entries = refl

-- ===== src/Vcdiff/CodeTable.antt =====
-- Code tables (src/vcdiff.c): the default table and its transfer form.
pub mod Laws
use diagonal.Base.{
  ℕ, zero, suc, ◌+◌, Option, none, some, List, [], ◌∷◌, ◌++◌, map, length, get_or, take, drop,
}

-- The instructions DIAG_VCD_NOOP, ADD, RUN and COPY.
abbrev pub noop : ℕ
noop = 0

abbrev pub add : ℕ
add = 1

abbrev pub run : ℕ
run = 2

abbrev pub copy : ℕ
copy = 3

pub record Code : Type 0 where
  pub inst1 : ℕ
  pub size1 : ℕ
  pub mode1 : ℕ
  pub inst2 : ℕ
  pub size2 : ℕ
  pub mode2 : ℕ

abbrev pub code : ℕ → ℕ → ℕ → ℕ → ℕ → ℕ → Code
code i1 s1 m1 i2 s2 m2 = record {
  inst1 = i1;
  size1 = s1;
  mode1 = m1;
  inst2 = i2;
  size2 = s2;
  mode2 = m2;
}

pub record CodeTable : Type 0 where
  pub s_near : ℕ
  pub s_same : ℕ
  pub entries : List Code

-- `first`, `first + 1`, …, in `n` steps.
abbrev upto : ℕ → ℕ → List ℕ
upto first zero = []
upto first (suc n) = first ∷ upto (suc first) n

abbrev flat_map : {A B : Type 0} → (A → List B) → List A → List B
flat_map f [] = []
flat_map f (x ∷ xs) = f x ++ flat_map f xs

-- The macro LINE, as it is defined for lines 3 to 11, 12 to 17 and 18 to 20.
line_copy : ℕ → List Code
line_copy mode = code copy 0 mode noop 0 0 ∷ map (λ s. code copy s mode noop 0 0) (upto 4 15)

line_add_copy : ℕ → List Code
line_add_copy mode = flat_map (λ a. map (λ s. code add a 0 copy s mode) (upto 4 3)) (upto 1 4)

line_add_copy4 : ℕ → List Code
line_add_copy4 mode = map (λ a. code add a 0 copy 4 mode) (upto 1 4)

unfoldable pub default_code_table_entries : List Code
unfolding line_copy line_add_copy line_add_copy4
default_code_table_entries =
    (code run 0 0 noop 0 0 ∷ [])
    ++ (map (λ s. code add s 0 noop 0 0) (upto 0 18)
        ++ (flat_map line_copy (upto 0 9)
            ++ (flat_map line_add_copy (upto 0 6)
                ++ (flat_map line_add_copy4 (upto 6 3)
                    ++ map (λ m. code copy 4 m add 1 0) (upto 0 9)))))

unfoldable pub default_code_table : CodeTable
unfolding default_code_table_entries
default_code_table = record { s_near = 4; s_same = 3; entries = default_code_table_entries }

-- The six loops, each over the 256 entries.
unfoldable pub code_table_entries_to_string : List Code → List ℕ
code_table_entries_to_string entries =
    map (λ c. c.inst1) entries
    ++ (map (λ c. c.inst2) entries
        ++ (map (λ c. c.size1) entries
            ++ (map (λ c. c.size2) entries
                ++ (map (λ c. c.mode1) entries ++ map (λ c. c.mode2) entries))))

-- Entry `i` takes the bytes `i`, `256 + i`, …, `5 * 256 + i`.
entry_of : List ℕ → ℕ → Code
entry_of str i =
    code (get_or str i 0) (get_or str (512 + i) 0) (get_or str (1024 + i) 0)
      (get_or str (256 + i) 0) (get_or str (768 + i) 0) (get_or str (1280 + i) 0)

unfoldable pub code_table_entries_from_string : List ℕ → List Code
unfolding entry_of
code_table_entries_from_string str = map (entry_of str) (upto 0 256)

-- ===== src/Vcdiff/Read/Layout.antt =====
-- The bytes of a VCDIFF stream, as RFC 3284 lays them out: what `diag_vcdiff_read` has to parse.
use diagonal.Base.{
  ℕ, ◌-◌, ◌<◌, ◌≡◌, Bool, true, false, ◌||◌, Option, none, some, List, [], ◌∷◌, ◌++◌, bit_and, ◌==◌,
  if◌then◌else◌, length, All,
}
use diagonal.Base.Word.{u32_mod}
use diagonal.Vcdiff.Integer.Laws.{encode_integer}
use diagonal.Vcdiff.{Delta, Window, Vcdiff, sourcep, targetp, decompressp, codetablep}

unfoldable pub encode_delta : Delta → List ℕ
encode_delta d =
    encode_integer d.length
    ++ (encode_integer d.s_window
        ++ ((d.indicator ∷ [])
            ++ (encode_integer (length d.inst_data)
                ++ (encode_integer (length d.inst)
                    ++ (encode_integer (length d.addr)
                        ++ (d.inst_data ++ (d.inst ++ (d.addr ++ []))))))))

abbrev pub has_segment : ℕ → Bool
has_segment indicator = sourcep indicator || targetp indicator

unfoldable pub encode_segment : Window → List ℕ
encode_segment w =
    if has_segment w.indicator
    then encode_integer w.length_source_segment ++ (encode_integer w.position_source_segment ++ [])
    else []

unfoldable pub encode_window : Window → List ℕ
encode_window w = encode_segment w ++ (encode_delta w.delta ++ [])

-- Each window begins with its Win_Indicator byte.
abbrev pub encode_windows : List Window → List ℕ
encode_windows [] = []
encode_windows (w ∷ ws) = w.indicator ∷ (encode_window w ++ encode_windows ws)

abbrev pub encode_option : Option ℕ → List ℕ
encode_option none = []
encode_option (some b) = b ∷ []

abbrev pub encode_table : Option (List ℕ) → List ℕ
encode_table none = []
encode_table (some d) = encode_integer (length d) ++ d

unfoldable pub encode_header : Vcdiff → List ℕ
encode_header v =
    0xd6
    ∷ 0xc3
    ∷ 0xc4
    ∷ v.version
    ∷ v.indicator
    ∷ (encode_option v.compressor_id ++ encode_table v.code_table_data)

unfoldable pub encode_vcdiff : Vcdiff → List ℕ
encode_vcdiff v = encode_header v ++ encode_windows v.windows

-- Every length fits a `uint32_t`.
pub record IsDelta (d : Delta) : Type 0 where
  pub length_fits : d.length < u32_mod
  pub s_window_fits : d.s_window < u32_mod
  pub data_fits : length d.inst_data < u32_mod
  pub inst_fits : length d.inst < u32_mod
  pub addr_fits : length d.addr < u32_mod

-- `compatibility` forbids a Win_Indicator with two bits set.
pub record IsWindow (compatibility : ℕ) (w : Window) : Type 0 where
  pub one_bit :
      (compatibility == 0 || (w.indicator == 0 || bit_and w.indicator (w.indicator - 1) == 0))
      ≡ true
  pub length_fits : w.length_source_segment < u32_mod
  pub position_fits : w.position_source_segment < u32_mod
  pub no_length : has_segment w.indicator ≡ false → w.length_source_segment ≡ 0
  pub no_position : has_segment w.indicator ≡ false → w.position_source_segment ≡ 0
  pub delta_fits : IsDelta w.delta

abbrev pub IsTable : Bool → Option (List ℕ) → Type 0
IsTable flag none = flag ≡ false
IsTable flag (some d) = (flag ≡ true) × (length d < u32_mod)

abbrev pub IsCompressor : Bool → Option ℕ → Type 0
IsCompressor flag none = flag ≡ false
IsCompressor flag (some b) = flag ≡ true

-- Streams that the format can express: optional parts are there exactly when their flag is set.
pub record IsStream (compatibility : ℕ) (v : Vcdiff) : Type 0 where
  pub version_known : (compatibility == 0 || v.version == 0) ≡ true
  pub compressor : IsCompressor (decompressp v.indicator) v.compressor_id
  pub table : IsTable (codetablep v.indicator) v.code_table_data
  pub counted : v.num_windows ≡ length v.windows
  pub count_fits : length v.windows < u32_mod
  pub windows_fit : All (IsWindow compatibility) v.windows

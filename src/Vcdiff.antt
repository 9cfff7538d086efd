-- ===== src/Vcdiff.antt =====
-- The data of src/diagonal/vcdiff.h: a parsed VCDIFF stream and its code table.
-- A field that C leaves unset, since a flag is off, is `none` or 0, and is not read.
pub mod Integer
pub mod Read
pub mod Cache
pub mod CodeTable
pub mod Vm
pub mod Expand
pub mod Contract
mod Examples
use diagonal.Base.{ℕ, Bool, Option, List}
use diagonal.Base.Word.{has_flag}

pub record Delta : Type 0 where
  pub length : ℕ
  pub s_window : ℕ
  pub indicator : ℕ
  pub inst_data : List ℕ
  pub inst : List ℕ
  pub addr : List ℕ

pub record Window : Type 0 where
  pub indicator : ℕ
  pub length_source_segment : ℕ
  pub position_source_segment : ℕ
  pub delta : Delta

-- DIAG_VCDIFF_SOURCEP and DIAG_VCDIFF_TARGETP
abbrev pub sourcep : ℕ → Bool
sourcep indicator = has_flag indicator 1

abbrev pub targetp : ℕ → Bool
targetp indicator = has_flag indicator 2

pub record Vcdiff : Type 0 where
  pub version : ℕ
  pub indicator : ℕ
  pub compressor_id : Option ℕ
  pub code_table_data : Option (List ℕ)
  pub num_windows : ℕ
  pub windows : List Window

-- DIAG_VCDIFF_DECOMPRESSP and DIAG_VCDIFF_CODETABLEP
abbrev pub decompressp : ℕ → Bool
decompressp indicator = has_flag indicator 1

abbrev pub codetablep : ℕ → Bool
codetablep indicator = has_flag indicator 2

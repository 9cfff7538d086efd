-- ===== src/Vcdiff/Expand/Examples.antt =====
-- Runs and instances for the expansion of scripts.
use diagonal.Base.{◌≡◌, none, [], ◌∷◌, arith}
use diagonal.Vcdiff.Expand.{add_code, run_code, copy_code, Script, Expanded, diag_vcdiff_expand}
use diagonal.Vcdiff.Expand.Result.{diag_vcdiff_expand-append_pcodes}

-- "ab", then five bytes copied from the start, over the bytes that the COPY itself writes.
abbrev periodic : Script
periodic = record {
  source = none;
  pcodes = add_code 2 (97 ∷ 98 ∷ []) ∷ copy_code 5 0 ∷ run_code 2 99 ∷ [];
}

diag_vcdiff_expand-append_pcodes_example :
    diag_vcdiff_expand periodic
    ≡ Expanded.expanded (97 ∷ 98 ∷ 97 ∷ 98 ∷ 97 ∷ 98 ∷ 97 ∷ 99 ∷ 99 ∷ [])
diag_vcdiff_expand-append_pcodes_example =
    diag_vcdiff_expand-append_pcodes periodic (omega arith) (omega arith, (omega arith, (tt, tt)))

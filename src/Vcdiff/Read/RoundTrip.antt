-- ===== src/Vcdiff/Read/RoundTrip.antt =====
-- `diag_vcdiff_read` parses every stream of the format, from any port that delivers its bytes.
use diagonal.Base.{
  ℕ, zero, suc, ◌%◌, ◌≤◌, ◌<◌, ◌≡◌, refl, ap, ◌∙◌, Bool, Option, none, some, List, [], ◌∷◌, ◌++◌,
  if◌then◌else◌, length, All, append_assoc, append-nil, arith, inl, inr, Bool-cases, length-append,
}
use diagonal.Base.Word.{u32_mod}
use diagonal.Port.{Status, Reader, IsReader}
use diagonal.Port.Input.{Read, pure, ◌>>=◌, byte}
use diagonal.Port.Input.Laws.{
  Parses, Parses-bind, Parses-pure, Parses-guard, Parses-byte, Parses-bytes,
}
use diagonal.Vcdiff.Integer.Laws.{Parses-integer}
use diagonal.Vcdiff.{Delta, Window, Vcdiff}
use diagonal.Vcdiff.Read.{
  code_table_data_read, delta_read, segment_read, window_read, windows_loop, expect, header_read,
  diag_vcdiff_read,
}
use diagonal.Vcdiff.Read.Layout.{
  encode_delta, encode_segment, has_segment, encode_window, encode_windows, encode_option,
  encode_table, encode_header, encode_vcdiff, IsDelta, IsWindow, IsStream, IsTable, IsCompressor,
}

module _ {S : Type 0} {port : Reader S} {Holds : S → List ℕ → Type 0} (law : IsReader port Holds)
    (fuel : ℕ) where
  delta-Parses :
      (d : Delta) → IsDelta d → Parses Holds fuel (delta_read port fuel) (encode_delta d) d
  unfolding delta_read encode_delta
  delta-Parses d h = Parses-bind _ _ (Parses-integer law d.length h.length_fits) (
      Parses-bind _ _ (Parses-integer law d.s_window h.s_window_fits) (
        Parses-bind _ _ (Parses-byte law) (
          Parses-bind _ _ (Parses-integer law (length d.inst_data) h.data_fits) (
            Parses-bind _ _ (Parses-integer law (length d.inst) h.inst_fits) (
              Parses-bind _ _ (Parses-integer law (length d.addr) h.addr_fits) (
                Parses-bind _ _ (Parses-bytes law refl) (
                  Parses-bind _ _ (Parses-bytes law refl)
                    (Parses-bind _ _ (Parses-bytes law refl) Parses-pure))))))))

  segment-Parses :
      (c : ℕ) (w : Window)
      → IsWindow c w
      → Parses Holds fuel
          (segment_read port fuel w.indicator)
          (encode_segment w)
          (w.length_source_segment, w.position_source_segment)
  unfolding segment_read encode_segment
  segment-Parses c w h = elim (Bool-cases (has_segment w.indicator)) [
    | inl e ↦ rw e (
        Parses-bind _ _ (Parses-integer law w.length_source_segment h.length_fits) (
          Parses-bind _ _ (Parses-integer law w.position_source_segment h.position_fits)
            Parses-pure))
    | inr e ↦ rw (e, h.no_length e, h.no_position e) Parses-pure
  ]

  window-Parses :
      (c : ℕ) (w : Window)
      → IsWindow c w
      → Parses Holds fuel (window_read port fuel c w.indicator) (encode_window w) w
  unfolding window_read encode_window
  window-Parses c w h = Parses-bind _ _ (Parses-guard h.one_bit) (
      Parses-bind _ _ (segment-Parses c w h)
        (Parses-bind _ _ (delta-Parses w.delta h.delta_fits) Parses-pure))

  windows_loop-done :
      (c rounds : ℕ) (before : List Window) (s : S) {b : ℕ} {s1 s2 : S} {w : Window}
      → port.read_byte s ≡ (Status.done, b, s1)
      → window_read port fuel c b s1 ≡ Read.ok w s2
      → windows_loop port fuel c (suc rounds) before s
        ≡ windows_loop port fuel c rounds (before ++ (w ∷ [])) s2
  unfolding windows_loop
  windows_loop-done c rounds before s e1 e2 = rw (e1, windows_loop) (rw e1 (rw e2))

  windows_loop-short :
      (c rounds : ℕ) (before : List Window) (s : S)
      → (port.read_byte s).0 ≡ Status.short
      → (s' : S) × (windows_loop port fuel c (suc rounds) before s ≡ Read.ok before s')
  unfolding windows_loop
  windows_loop-short c rounds before s e = ((port.read_byte s).2, rw (e, windows_loop))

  windows_parse :
      (c : ℕ) (ws before : List Window) (rounds : ℕ) (s : S)
      → All (IsWindow c) ws
      → Holds s (encode_windows ws)
      → length (encode_windows ws) ≤ fuel
      → length (encode_windows ws) < rounds
      → (s' : S) × (windows_loop port fuel c rounds before s ≡ Read.ok (before ++ ws) s')
  windows_parse c ws before zero s h k len more = absurd (omega arith)
  windows_parse c [] before (suc rounds) s h k len more =
      rw append-nil (windows_loop-short c rounds before s (law.byte_short s k))
  windows_parse c (w ∷ ws) before (suc rounds) s (h, hs) k len more =
      let (s1, e1, k1) = law.byte_done s w.indicator _ k in
      let (s2, e2, k2) = (window-Parses c w h).run s1 (encode_windows ws) k1 (omega arith) in
      let (s3, e3) =
        windows_parse c ws (before ++ (w ∷ [])) rounds s2 hs k2
          (omega (arith, length-append (encode_window w) (encode_windows ws)))
          (omega (arith, length-append (encode_window w) (encode_windows ws))) in
      (
        s3,
        windows_loop-done c rounds before s e1 e2
            ∙ e3
            ∙ ap (λ l. Read.ok l s3) (append_assoc before (w ∷ []) ws),
      )

  byte_is : (b : ℕ) → Parses Holds fuel (expect port fuel b) (b ∷ []) tt
  unfolding expect
  byte_is b = Parses-bind _ [] (Parses-byte law) (Parses-guard (ground arith))

  compressor-Parses :
      (flag : Bool) (c : Option ℕ)
      → IsCompressor flag c
      → Parses Holds fuel
          (if flag then (do b ← byte port; pure (some b)) else pure none)
          (encode_option c)
          c
  compressor-Parses flag none h = rw h Parses-pure
  compressor-Parses flag (some b) h = rw h (Parses-bind _ _ (Parses-byte law) Parses-pure)

  table-Parses :
      (flag : Bool) (t : Option (List ℕ))
      → IsTable flag t
      → Parses Holds fuel
          (if flag then (do d ← code_table_data_read port fuel; pure (some d)) else pure none)
          (encode_table t)
          t
  unfolding code_table_data_read
  table-Parses flag none h = rw h Parses-pure
  table-Parses flag (some d) (e, fits) =
      rw (e, ← append-nil (encode_table (some d)))
        (Parses-bind _ []
          (Parses-bind _ _ (Parses-integer law (length d) fits) (Parses-bytes law refl))
          Parses-pure)

  header-Parses :
      (c : ℕ) (v : Vcdiff)
      → IsStream c v
      → Parses Holds fuel
          (header_read port fuel c)
          (encode_header v)
          (record v { num_windows = 0; windows = [] })
  unfolding header_read encode_header
  header-Parses c v h = rw (← append-nil (encode_table v.code_table_data)) (
      Parses-bind _ _ (byte_is 0xd6) (
        Parses-bind _ _ (byte_is 0xc3) (
          Parses-bind _ _ (byte_is 0xc4) (
            Parses-bind _ _ (Parses-byte law) (
              Parses-bind _ _ (Parses-guard h.version_known) (
                Parses-bind _ _ (Parses-byte law) (
                  Parses-bind _ _ (compressor-Parses _ v.compressor_id h.compressor)
                    (Parses-bind _ _ (table-Parses _ v.code_table_data h.table) Parses-pure))))))))

  -- On a port that holds the bytes of a stream `diag_vcdiff_read` returns that stream: every field
  -- and every window in order, with any amount of fuel above the number of those bytes.
  pub diag_vcdiff_read-encode_vcdiff :
      (c : ℕ) (v : Vcdiff) (s : S)
      → IsStream c v
      → Holds s (encode_vcdiff v)
      → length (encode_vcdiff v) < fuel
      → (s' : S) × (diag_vcdiff_read port fuel c s ≡ Read.ok v s')
  unfolding diag_vcdiff_read encode_vcdiff
  diag_vcdiff_read-encode_vcdiff c v s h k len =
      let (s1, e1, k1) = (header-Parses c v h).run s (encode_windows v.windows) k (omega arith) in
      let fits : length (encode_windows v.windows) < fuel =
        omega (arith, length-append (encode_header v) (encode_windows v.windows)) in
      let (s2, e2) = windows_parse c v.windows [] fuel s1 h.windows_fit k1 (omega arith) fits in
      let count : length v.windows % u32_mod ≡ v.num_windows =
        omega (arith, h.counted, h.count_fits) in
      (s2, rw (e1, e2, count))

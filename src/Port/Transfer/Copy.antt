-- ===== src/Port/Transfer/Copy.antt =====
-- `diag_port_copy` delivers everything that the input port has left.
use diagonal.Base.{
  ℕ, zero, suc, ◌+◌, ◌*◌, ◌≤◌, ◌<◌, ◌≡◌, refl, sym, ap, ◌∙◌, subst, true, List, [], ◌∷◌, ◌++◌,
  arith, leb, lt→ltb, length, take, drop, length-append, append_assoc, append-nil,
}
use diagonal.Base.Slices.{overwrite, take-append_left, length-overwrite}
use diagonal.Base.Word.{sub_size}
use diagonal.Port.{Status, Reader}
use diagonal.Port.Counted.{IsCounted, Block, read_bytes-Block}
use diagonal.Port.Transfer.{
  Writer, buffer_length, Copied, copied, copy_rest, copy_step, copy_loop, written, diag_port_copy,
}

-- `Wrote t out room`: `out` has been written to `t`, and `room` more bytes fit.
pub record IsWriter {T : Type 0} (port : Writer T) (Wrote : T → List ℕ → ℕ → Type 0) : Type 0 where
  pub write_done :
      (t : T) (xs out : List ℕ) (room : ℕ)
      → Wrote t out (length xs + room)
      → (t' : T) × (port.write_bytes xs t ≡ (Status.done, t')) × Wrote t' (out ++ xs) room

take-overwrite : (xs ys : List ℕ) (n : ℕ) → length ys ≡ n → take n (overwrite xs 0 ys) ≡ ys
take-overwrite xs ys n e = take-append_left ys (drop (length ys) xs) n (sym e)

module _ {S T : Type 0} {iport : Reader S} {i_pos : S → ℕ} {Holds : S → List ℕ → Type 0}
    (reader : IsCounted iport i_pos Holds) {oport : Writer T} {Wrote : T → List ℕ → ℕ → Type 0}
    (writer : IsWriter oport Wrote) where
  record IsCopied (before n : ℕ) (out : List ℕ) (room : ℕ) (outcome : Copied S T) : Type 0 where
    input : S
    output : T
    result : outcome ≡ copied (before + n) input output
    drained : Holds input []
    delivered : Wrote output out room

  copy_rest-IsCopied :
      (pos : ℕ) (buf bs : List ℕ) (s : S) (t : T) (out : List ℕ) (room : ℕ)
      → length buf ≡ buffer_length
      → length bs ≤ buffer_length
      → Holds s []
      → i_pos s ≡ pos + length bs
      → Wrote t out (length bs + room)
      → IsCopied pos
          (length bs)
          (out ++ bs)
          room
          (copy_rest iport i_pos oport pos (overwrite buf 0 bs) s t)
  unfolding copy_rest written
  copy_rest-IsCopied pos buf [] s t out room full fits h at w =
      let len : sub_size (i_pos s) pos ≡ 0 = omega (arith, at, reader.fits s [] h) in
      let last : pos ≡ pos + 0 = omega arith in
      record {
        input = s;
        output = t;
        result = rw len (ap (λ k. copied k s t) last);
        drained = h;
        delivered =
            subst (λ o. Wrote t o room) (sym (append-nil out))
              (subst (Wrote t out) (omega arith) w);
      }
  copy_rest-IsCopied pos buf (x ∷ xs) s t out room full fits h at w =
      let bs = x ∷ xs in
      let len : sub_size (i_pos s) pos ≡ length bs = omega (arith, at, reader.fits s [] h) in
      let inside : leb (length bs) (length (overwrite buf 0 bs)) ≡ true =
        ground (arith, length-overwrite buf 0 bs (omega (arith, full, fits)), full, fits) in
      let (t', wrote, w') = writer.write_done t bs out room w in
      record {
        input = s;
        output = t';
        result = rw (
          len,
          lt→ltb 0 (length bs) (omega arith),
          inside,
          take-overwrite buf bs (length bs) refl,
          wrote,
        );
        drained = h;
        delivered = w';
      }

  copy_loop-IsCopied :
      (fuel pos : ℕ) (buf bs : List ℕ) (s : S) (t : T) (out : List ℕ) (room : ℕ)
      → length bs < fuel * buffer_length
      → length buf ≡ buffer_length
      → Holds s bs
      → i_pos s ≡ pos
      → Wrote t out (length bs + room)
      → IsCopied pos (length bs) (out ++ bs) room (copy_loop iport i_pos oport fuel pos buf s t)
  unfolding copy_loop copy_step written
  copy_loop-IsCopied zero pos buf bs s t out room enough full h at w = absurd (omega arith)
  copy_loop-IsCopied (suc fuel) pos buf bs s t out room enough full h at w =
      elim (read_bytes-Block reader buffer_length s bs h) [
        | Block.partial s' few r h' at' ↦
            subst
              (λ k.
                IsCopied pos (length bs) (out ++ bs) room
                  (copy_step iport i_pos oport (copy_loop iport i_pos oport fuel) pos buf k t))
              (sym r)
              (copy_rest-IsCopied pos buf bs s' t out room full (omega arith) h'
                (omega (arith, at, at')) w)
        | Block.full now later s' sized whole r h' at' ↦
            let left : length bs ≡ buffer_length + length later =
              ap length (sym whole) ∙ omega (arith, length-append now later, sized) in
            let (t', wrote, w') =
              writer.write_done t now out (length later + room)
                (subst (Wrote t out) (omega (arith, sized, left)) w) in
            let rest =
              copy_loop-IsCopied fuel (pos + buffer_length) (overwrite buf 0 now) later s' t'
                (out ++ now) room (omega (arith, left, enough))
                (length-overwrite buf 0 now (omega (arith, full, sized)) ∙ full) h'
                (omega (arith, at, at')) w' in
            let total : pos + buffer_length + length later ≡ pos + length bs =
              omega (arith, left) in
            record {
              input = rest.input;
              output = rest.output;
              result =
                  rw (r, take-overwrite buf now buffer_length sized, wrote, rest.result, total);
              drained = rest.drained;
              delivered =
                  subst (λ o. Wrote rest.output o room)
                    (append_assoc out now later ∙ ap (λ k. out ++ k) whole) rest.delivered;
            }
      ]

  -- An input port of which nothing has been read yet is copied whole: what it holds is appended to
  -- what the output port has been given, if there is room, and the length of it is returned. The
  -- fuel is one round for each full buffer and one for the rest.
  pub diag_port_copy-copies :
      (fuel : ℕ) (buf bs : List ℕ) (s : S) (t : T) (out : List ℕ) (room : ℕ)
      → length bs < fuel * buffer_length
      → length buf ≡ buffer_length
      → Holds s bs
      → i_pos s ≡ 0
      → Wrote t out (length bs + room)
      → (s' : S) × (t' : T) × (diag_port_copy iport i_pos oport fuel buf s t
          ≡ copied (length bs) s' t')
        × Holds s' []
        × Wrote t' (out ++ bs) room
  unfolding diag_port_copy
  diag_port_copy-copies fuel buf bs s t out room enough full h at w =
      let c = copy_loop-IsCopied fuel 0 buf bs s t out room enough full h at w in
      (
        c.input,
        c.output,
        c.result ∙ ap (λ k. copied k c.input c.output) (omega arith),
        c.drained,
        c.delivered,
      )

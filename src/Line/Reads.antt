-- ===== src/Line/Reads.antt =====
-- The line reader delivers the lines of what its port has left.
use diagonal.Base.{
  ℕ, zero, suc, ◌+◌, ◌-◌, ◌≤◌, ◌<◌, ◌≡◌, refl, sym, ap, ◌∙◌, subst, Option, none, some, List, [],
  ◌∷◌, ◌++◌, arith, inl, inr, false, ◌==◌, Bool-cases, leb, lt→ltb, le→ltb, length, length-append,
  take, drop, append-nil,
}
use diagonal.Base.Slices.{slice, overwrite, length-overwrite, length-slice, take-append_left}
use diagonal.Base.Word.{sub_size}
use diagonal.Port.{Status, Reader}
use diagonal.Port.Counted.{IsCounted, Block, read_bytes-Block}
use diagonal.Line.{
  LineContext, LineError, joined, scanned, take_line, refilled, read_loop, diag_line_read,
}
use diagonal.Line.Scan.{other_lines, Scanned, scan-Scanned}
use diagonal.Line.Outcome.{outcome, outcome_some, outcome-joined}

module _ {S : Type 0} {port : Reader S} {i_pos : S → ℕ} {Holds : S → List ℕ → Type 0}
    (reader : IsCounted port i_pos Holds) (bufsize : ℕ) where
  -- `bs` is what the buffer holds from `head` to `sentinel` and the port has left behind it.
  pub record Remains (context : LineContext S) (bs : List ℕ) : Type 0 where
    pub tail : List ℕ
    pub held : Holds context.port tail
    pub sized : length context.buf ≡ bufsize
    pub within : context.sentinel ≤ bufsize
    pub left : slice context.buf context.head (context.sentinel - context.head) ++ tail ≡ bs

  abbrev IsRead : Option (List ℕ) → List ℕ → LineError × LineContext S → Type 0
  IsRead line bs r = (r.0 ≡ outcome line bs) × Remains r.1 (other_lines bs)

  take_line-IsRead :
      (next : Option (List ℕ) → LineContext S → LineError × LineContext S) (line : Option (List ℕ))
      (context : LineContext S) (tail : List ℕ)
      → context.head < context.sentinel
      → context.sentinel ≤ bufsize
      → length context.buf ≡ bufsize
      → Holds context.port tail
      → ((gathered : List ℕ)
          → IsRead
              (some gathered)
              tail
              (next (some gathered) (record context { head = 0; sentinel = 0 })))
      → IsRead line
          (slice context.buf context.head (context.sentinel - context.head) ++ tail)
          (take_line next line context)
  unfolding take_line scanned
  take_line-IsRead next line context tail some_left within sized held later =
      let here = context.head in
      let n = context.sentinel - here in
      let ys = slice context.buf here n in
      let many : 0 < length (ys ++ tail) =
        omega (arith, length-append ys tail, length-slice context.buf here n (omega arith)) in
      elim (scan-Scanned context.buf here n (omega arith)) [
        | Scanned.found at low high r first other ↦
            let shorter : at < context.sentinel = omega (arith, high, some_left) in
            rw (r, lt→ltb at context.sentinel shorter)
              (
                ap (λ k. LineError.error_ok (joined line k)) (sym (first tail))
                    ∙ sym (outcome_some line (ys ++ tail) many),
                record {
                  tail = tail;
                  held = held;
                  sized = sized;
                  within = within;
                  left =
                      ap (λ k. slice context.buf (suc at) k ++ tail) (omega (arith, some_left))
                      ∙ sym (other tail);
                },
              )
        | Scanned.missing r first other ↦
            rw (r, le→ltb (here + n) context.sentinel (omega arith))
              (
                (later (joined line ys)).0
                    ∙ outcome-joined line ys tail
                    ∙ ap (λ k. LineError.error_ok (joined line k)) (sym (first tail))
                    ∙ sym (outcome_some line (ys ++ tail) many),
                subst
                    (Remains
                      (next (some (joined line ys)) (record context { head = 0; sentinel = 0 })).1)
                    (sym (other tail)) (later (joined line ys)).1,
              )
      ]

  -- A block that the port has just delivered is scanned from its first byte on.
  take_block-IsRead :
      (next : Option (List ℕ) → LineContext S → LineError × LineContext S) (line : Option (List ℕ))
      (buf now tail : List ℕ) (s : S) (n : ℕ)
      → length now ≡ n
      → 0 < n
      → n ≤ bufsize
      → length buf ≡ bufsize
      → Holds s tail
      → ((gathered : List ℕ)
          → IsRead (some gathered) tail (
              next
                (some gathered)
                (record { port = s; buf = overwrite buf 0 now; head = 0; sentinel = 0 })))
      → IsRead line (now ++ tail) (
          take_line next line
            (record { port = s; buf = overwrite buf 0 now; head = 0; sentinel = n }))
  take_block-IsRead next line buf now tail s n e some_left within sized held later =
      let context : LineContext S = record {
        port = s;
        buf = overwrite buf 0 now;
        head = 0;
        sentinel = n;
      } in
      subst (λ k. IsRead line (k ++ tail) (take_line next line context))
        (take-append_left now (drop (length now) buf) (n - 0) (omega arith))
        (take_line-IsRead next line context tail some_left within
          (length-overwrite buf 0 now (omega arith) ∙ sized) held later)

  empty_buffer-Remains :
      (s : S) (buf tail : List ℕ)
      → length buf ≡ bufsize
      → Holds s tail
      → Remains (record { port = s; buf = buf; head = 0; sentinel = 0 }) tail
  empty_buffer-Remains s buf tail sized held = record {
    tail = tail;
    held = held;
    sized = sized;
    within = omega arith;
    left = refl;
  }

  -- A read is followed by the last line, or by a scan of what has been read.
  module _ (next : Option (List ℕ) → LineContext S → LineError × LineContext S) where
    abbrev Later : ℕ → Type 0
    Later n =
        (gathered : List ℕ) (s : S) (buf tail : List ℕ)
        → length tail < n
        → length buf ≡ bufsize
        → Holds s tail
        → IsRead (some gathered) tail
            (next (some gathered) (record { port = s; buf = buf; head = 0; sentinel = 0 }))

    short-IsRead :
        (line : Option (List ℕ)) (context : LineContext S) (bs : List ℕ) (s : S)
        → length bs < bufsize
        → length context.buf ≡ bufsize
        → Holds s []
        → i_pos s ≡ i_pos context.port + length bs
        → Later (length bs)
        → IsRead line bs (refilled port i_pos bufsize next line context (Status.short, bs, s))
    unfolding refilled outcome other_lines
    short-IsRead line context [] s few sized held at later =
        let len : sub_size (i_pos s) (i_pos context.port) ≡ 0 =
          omega (arith, at, reader.fits s [] held) in
        rw len (
          refl,
          record { tail = []; held = held; sized = sized; within = omega arith; left = refl },
        )
    short-IsRead line context (x ∷ xs) s few sized held at later =
        let bs = x ∷ xs in
        let len : sub_size (i_pos s) (i_pos context.port) ≡ length bs =
          omega (arith, at, reader.fits s [] held) in
        let some_read : (length bs == 0) ≡ false = ground arith in
        rw (len, some_read)
          (subst
            (λ k. IsRead line k (
              take_line next line (record {
                port = s;
                buf = overwrite context.buf 0 bs;
                head = 0;
                sentinel = length bs;
              })))
            (append-nil bs)
            (take_block-IsRead next line context.buf bs [] s (length bs) refl (omega arith)
              (omega (arith, few)) sized held
              (λ gathered.
                later gathered s (overwrite context.buf 0 bs) [] (omega arith)
                  (length-overwrite context.buf 0 bs (omega (arith, few, sized)) ∙ sized) held)))

    refilled-IsRead :
        (line : Option (List ℕ)) (context : LineContext S) (bs : List ℕ)
        → 0 < bufsize
        → length context.buf ≡ bufsize
        → Holds context.port bs
        → Later (length bs)
        → IsRead line bs
            (refilled port i_pos bufsize next line context (port.read_bytes bufsize context.port))
    unfolding refilled
    refilled-IsRead line context bs room sized held later =
        elim (read_bytes-Block reader bufsize context.port bs held) [
          | Block.partial s few r held' at ↦
              rw r (short-IsRead line context bs s few sized held' at later)
          | Block.full now tail s e whole r held' at ↦
              let shorter : length tail < length bs =
                omega (arith, ap length (sym whole) ∙ length-append now tail, e, room) in
              rw r (
                subst
                  (λ k. IsRead line k (
                    take_line next line (record {
                      port = s;
                      buf = overwrite context.buf 0 now;
                      head = 0;
                      sentinel = bufsize;
                    })))
                  whole
                  (take_block-IsRead next line context.buf now tail s bufsize e room (omega arith)
                    sized held'
                    (λ gathered.
                      later gathered s (overwrite context.buf 0 now) tail shorter
                        (length-overwrite context.buf 0 now (omega (arith, e, sized)) ∙ sized)
                        held')))
        ]

  -- Every round but the last consumes a byte, and the last one may find nothing left.
  read_loop-IsRead :
      (fuel : ℕ) (line : Option (List ℕ)) (context : LineContext S) (bs : List ℕ)
      → length bs < fuel
      → 0 < bufsize
      → Remains context bs
      → IsRead line bs (read_loop port i_pos bufsize fuel line context)
  unfolding read_loop
  read_loop-IsRead zero line context bs enough sized left = absurd (omega arith)
  read_loop-IsRead (suc fuel) line context bs enough room c =
      let n = context.sentinel - context.head in
      let parts : length bs ≡ length (slice context.buf context.head n) + length c.tail =
        ap length (sym c.left) ∙ length-append (slice context.buf context.head n) c.tail in
      elim (Bool-cases (leb context.sentinel context.head)) [
        | inr more ↦
            let some_left : context.head < context.sentinel = ground (arith, more) in
            let consumed =
              length-slice context.buf context.head n
                (omega (arith, some_left, c.within, c.sized)) in
            rw more (
              subst
                (λ k. IsRead line k (take_line (read_loop port i_pos bufsize fuel) line context))
                c.left
                (take_line-IsRead (read_loop port i_pos bufsize fuel) line context c.tail some_left
                  c.within c.sized c.held
                  (λ gathered.
                    read_loop-IsRead fuel (some gathered)
                      (record context { head = 0; sentinel = 0 }) c.tail
                      (omega (arith, parts, consumed, some_left)) room
                      (empty_buffer-Remains context.port context.buf c.tail c.sized c.held))))
        | inl empty ↦
            let none_left : slice context.buf context.head n ≡ [] =
              ap (λ k. take k (drop context.head context.buf)) {x = n} {y = 0}
                (ground (arith, empty)) in
            let all : c.tail ≡ bs = ap (λ k. k ++ c.tail) (sym none_left) ∙ c.left in
            rw empty (
              refilled-IsRead (read_loop port i_pos bufsize fuel) line context bs room c.sized
                (subst (Holds context.port) all c.held)
                (λ gathered s buf tail shorter sized held.
                  read_loop-IsRead fuel (some gathered)
                    (record { port = s; buf = buf; head = 0; sentinel = 0 }) tail
                    (omega (arith, shorter, enough)) room
                    (empty_buffer-Remains s buf tail sized held)))
      ]

  -- The next line.
  pub diag_line_read-IsRead :
      (fuel : ℕ) (context : LineContext S) (bs : List ℕ)
      → length bs < fuel
      → 0 < bufsize
      → Remains context bs
      → ((diag_line_read port i_pos bufsize fuel context).0 ≡ outcome none bs)
        × Remains (diag_line_read port i_pos bufsize fuel context).1 (other_lines bs)
  unfolding diag_line_read
  diag_line_read-IsRead fuel context bs enough room c =
      read_loop-IsRead fuel none context bs enough room c

-- ===== src/Line.antt =====
-- The line reader: src/line.c and src/diagonal/line.h.
pub mod Scan
pub mod Outcome
pub mod Reads
mod Examples
use diagonal.Base.{
  ℕ, zero, suc, ◌-◌, Option, none, some, List, ◌++◌, ltb, leb, ◌==◌, if◌then◌else◌, get_elem?,
}
use diagonal.Base.Slices.{slice, overwrite}
use diagonal.Base.Word.{sub_size}
use diagonal.Port.{Status, done, short, fail, Reader}

-- `struct diag_line_context`, of which `bufsize` does not change. The port is `port`.
pub record LineContext (S : Type 0) : Type 0 where
  pub port : S
  pub buf : List ℕ
  pub head : ℕ
  pub sentinel : ℕ

-- `diag_line_error_e` and, with `error_ok`, the line that `*linep` and `*sizep` receive. `fault` is
-- an access past the end of the buffer, and `stuck` a loop that ran out of fuel.
pub data LineError : Type 0 where
  error_ok : List ℕ → LineError
  error_eof : LineError
  error_unknown : LineError
  fault : LineError
  stuck : LineError

-- '\n'
abbrev pub newline : ℕ
newline = 10

-- `while (h < context->sentinel)`: the index of the first newline, `sentinel` when there is none, or
-- nothing when the buffer is shorter. `n` is how many elements are left.
unfoldable pub scan : List ℕ → ℕ → ℕ → Option ℕ
scan buf h zero = some h
scan buf h (suc n) = elim (get_elem? buf h) [
  | none ↦ none
  | some b ↦ if b == newline then some h else scan buf (suc h) n
]

-- `buf` is what the new buffer holds; `bufsize` is its length.
unfoldable pub diag_line_context_new : {S : Type 0} → S → List ℕ → LineContext S
diag_line_context_new port buf = record { port = port; buf = buf; head = 0; sentinel = 0 }

-- `realloc` and `memcpy`: what has been gathered before, if anything has, and `ss` bytes behind it.
unfoldable pub joined : Option (List ℕ) → List ℕ → List ℕ
joined none bytes = bytes
joined (some line) bytes = line ++ bytes

-- The result when nothing is left to read.
unfoldable pub ended : Option (List ℕ) → LineError
ended none = LineError.error_eof
ended (some line) = LineError.error_ok line

module _ {S : Type 0} where
  -- What follows the scan; `next` is the loop.
  unfoldable pub scanned :
      (next : Option (List ℕ) → LineContext S → LineError × LineContext S)
      → Option (List ℕ)
      → LineContext S
      → Option ℕ
      → LineError × LineContext S
  scanned next line context none = (LineError.fault, context)
  scanned next line context (some h) =
      if ltb h context.sentinel
      then (
        LineError.error_ok (joined line (slice context.buf context.head (h - context.head))),
        record context { head = suc h },
      )
      else next
          (some (joined line (slice context.buf context.head (context.sentinel - context.head))))
          (record context { head = 0; sentinel = 0 })

  -- From `assert(context->head < context->sentinel)` on.
  unfoldable pub take_line :
      (next : Option (List ℕ) → LineContext S → LineError × LineContext S)
      → Option (List ℕ)
      → LineContext S
      → LineError × LineContext S
  take_line next line context =
      scanned next line context (scan context.buf context.head (context.sentinel - context.head))

  module _ (port : Reader S) (i_pos : S → ℕ) (bufsize : ℕ) where
    -- What follows the read, which stores its bytes at the front of the buffer.
    unfoldable pub refilled :
        (next : Option (List ℕ) → LineContext S → LineError × LineContext S)
        → Option (List ℕ)
        → LineContext S
        → Status × List ℕ × S
        → LineError × LineContext S
    refilled next line context (done, bs, s) =
        take_line next line
          (record { port = s; buf = overwrite context.buf 0 bs; head = 0; sentinel = bufsize })
    refilled next line context (short, bs, s) =
        let context' : LineContext S = record {
          port = s;
          buf = overwrite context.buf 0 bs;
          head = 0;
          sentinel = sub_size (i_pos s) (i_pos context.port);
        } in
        if context'.sentinel == 0 then (ended line, context') else take_line next line context'
    refilled next line context (fail, bs, s) = (
      LineError.error_unknown,
      record context { port = s; buf = overwrite context.buf 0 bs; head = 0 },
    )

    unfoldable pub read_loop : ℕ → Option (List ℕ) → LineContext S → LineError × LineContext S
    read_loop zero line context = (LineError.stuck, context)
    read_loop (suc fuel) line context =
        if leb context.sentinel context.head
        then refilled (read_loop fuel) line context (port.read_bytes bufsize context.port)
        else take_line (read_loop fuel) line context

    unfoldable pub diag_line_read : ℕ → LineContext S → LineError × LineContext S
    diag_line_read fuel context = read_loop fuel none context

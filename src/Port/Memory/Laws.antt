-- ===== src/Port/Memory/Laws.antt =====
-- A memory port delivers its block in order, and a write moves nothing but what it covers.
use diagonal.Base.{
  ℕ, zero, suc, ◌+◌, ◌<◌, ◌≡◌, refl, sym, ap, ◌∙◌, true, false, List, [], ◌∷◌, ◌++◌, arith, ltb,
  leb, lt→ltb, le→ltb, length, length-append, length-drop, get_or, drop,
}
use diagonal.Base.Slices.{drop-drop, take-append_left, drop-append_left}
use diagonal.Base.Word.{add_size, sub_size}
use diagonal.Port.{done, short, IsReader}
use diagonal.Port.Memory.{MemoryPort, size, IsValid, read_byte_bm, read_bytes_bm, memory_reader}

-- What is left of the block.
pub record Holds (port : MemoryPort) (bs : List ℕ) : Type 0 where
  pub valid : IsValid port
  pub left : drop port.i_pos port.head ≡ bs

get_or-drop :
    (xs : List ℕ) (n x : ℕ) (ys : List ℕ)
    → drop n xs ≡ x ∷ ys
    → (get_or xs n 0 ≡ x) × (drop (n + 1) xs ≡ ys) × (n < length xs)
get_or-drop [] zero x ys h = absurd (omega (arith, ap length h))
get_or-drop [] (suc n) x ys h = absurd (omega (arith, ap length h))
get_or-drop (z ∷ zs) zero x ys h = (ground arith, ground arith, omega arith)
get_or-drop (z ∷ zs) (suc n) x ys h =
    let (a, b, c) = get_or-drop zs n x ys h in
    (a, ap (λ k. drop k (z ∷ zs)) {x = suc n + 1} {y = suc (n + 1)} (omega arith) ∙ b, omega arith)

pub length-left :
    {port : MemoryPort} {bs : List ℕ} → Holds port bs → size port ≡ port.i_pos + length bs
length-left {port} h =
    omega (arith, length-drop port.i_pos port.head, ap length h.left, h.valid.i_within)

unfoldable pub advance : (port : MemoryPort) → ℕ → MemoryPort
advance port n = record port { i_pos = port.i_pos + n }

pub advance-Holds :
    (port : MemoryPort) (n : ℕ) (xs ys : List ℕ)
    → length xs ≡ n
    → Holds port (xs ++ ys)
    → Holds (advance port n) ys
unfolding advance
advance-Holds port n xs ys e h = record {
  valid = record {
    size_fits = h.valid.size_fits;
    i_within = omega (arith, length-left h, length-append xs ys);
    o_within = h.valid.o_within;
  };
  left =
      sym (drop-drop n port.i_pos port.head)
      ∙ ap (drop n) h.left
      ∙ drop-append_left xs ys n (omega arith);
}

read_byte_done :
    (port : MemoryPort) (b : ℕ) (bs : List ℕ)
    → Holds port (b ∷ bs)
    → read_byte_bm port ≡ (done, b, advance port 1)
unfolding read_byte_bm advance
read_byte_done port b bs h =
    let e : add_size port.i_pos 1 ≡ port.i_pos + 1 =
      omega (arith, length-left h, h.valid.size_fits) in
    rw (
      e,
      lt→ltb _ _ (get_or-drop port.head port.i_pos b bs h.left).2,
      (get_or-drop port.head port.i_pos b bs h.left).0,
    )

read_byte_short : (port : MemoryPort) → Holds port [] → (read_byte_bm port).0 ≡ short
unfolding read_byte_bm
read_byte_short port h =
    let at_end : ltb port.i_pos (size port) ≡ false = le→ltb _ _ (omega (arith, length-left h)) in
    rw at_end

pub len_left :
    {port : MemoryPort} {bs : List ℕ} → Holds port bs → sub_size (size port) port.i_pos ≡ length bs
len_left h = omega (arith, length-left h, h.valid.size_fits)

pub read_bytes_done :
    (port : MemoryPort) (n : ℕ) (xs ys : List ℕ)
    → length xs ≡ n
    → Holds port (xs ++ ys)
    → read_bytes_bm n port ≡ (done, xs, advance port n)
unfolding read_bytes_bm advance
read_bytes_done port n xs ys e h =
    let fits : leb n (length (xs ++ ys)) ≡ true = ground (arith, length-append xs ys) in
    let moved : add_size port.i_pos n ≡ port.i_pos + n =
      omega (arith, length-left h, h.valid.size_fits, length-append xs ys) in
    rw (len_left h, fits, moved, h.left, take-append_left xs ys n (omega arith))

read_bytes_short :
    (port : MemoryPort) (n : ℕ) (bs : List ℕ)
    → length bs < n
    → Holds port bs
    → (read_bytes_bm n port).0 ≡ short
unfolding read_bytes_bm
read_bytes_short port n bs lt h =
    let too_long : leb n (length bs) ≡ false = ground arith in rw (len_left h, too_long)

-- A memory port is a reader of the bytes from its position to the end of its block.
pub memory_reader-IsReader : IsReader memory_reader Holds
unfolding memory_reader
memory_reader-IsReader = record {
  byte_done =
      λ s b bs h. (advance s 1, read_byte_done s b bs h, advance-Holds s 1 (b ∷ []) bs refl h);
  byte_short = read_byte_short;
  bytes_done =
      λ s n xs ys e h. (advance s n, read_bytes_done s n xs ys e h, advance-Holds s n xs ys e h);
  bytes_short = read_bytes_short;
}

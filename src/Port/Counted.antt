-- ===== src/Port/Counted.antt =====
-- Ports that count the bytes they have delivered (`i_pos`): what a client that reads blocks relies on.
use diagonal.Base.{
  ℕ, ◌+◌, ◌<◌, ◌≡◌, refl, sym, ◌∙◌, List, [], ◌++◌, arith, length, leb, take, drop, false, ◌≤◌, ◌⊎◌,
  inl, inr, subst, length-take, append-nil,
}
use diagonal.Base.Slices.{take_all, take-append-drop}
use diagonal.Base.Word.{size_mod, add_size}
use diagonal.Port.{Status, short, Reader}
use diagonal.Port.Memory.{MemoryPort, read_bytes_bm, memory_reader}
use diagonal.Port.Memory.Laws.{
  Holds, advance, advance-Holds, read_bytes_done, length-left, len_left,
}

pub record IsCounted {S : Type 0} (port : Reader S) (i_pos : S → ℕ) (Holds : S → List ℕ → Type 0)
    : Type 0 where
  pub block_done :
      (s : S) (n : ℕ) (xs ys : List ℕ)
      → length xs ≡ n
      → Holds s (xs ++ ys)
      → (s' : S) × (port.read_bytes n s ≡ (Status.done, xs, s'))
        × Holds s' ys
        × (i_pos s' ≡ i_pos s + n)
  pub block_short :
      (s : S) (n : ℕ) (bs : List ℕ)
      → length bs < n
      → Holds s bs
      → (s' : S) × (port.read_bytes n s ≡ (Status.short, bs, s'))
        × Holds s' []
        × (i_pos s' ≡ i_pos s + length bs)
  pub fits : (s : S) (bs : List ℕ) → Holds s bs → i_pos s + length bs < size_mod

-- What a read of `n` bytes comes to: a full block, or what is left.
pub data Block {S : Type 0} (port : Reader S) (i_pos : S → ℕ) (Holds : S → List ℕ → Type 0) (n : ℕ)
    (s : S) (bs : List ℕ) : Type 0 where
  full :
      (now later : List ℕ) (s' : S)
      → length now ≡ n
      → now ++ later ≡ bs
      → port.read_bytes n s ≡ (Status.done, now, s')
      → Holds s' later
      → i_pos s' ≡ i_pos s + n
      → Block port i_pos Holds n s bs
  partial :
      (s' : S)
      → length bs < n
      → port.read_bytes n s ≡ (Status.short, bs, s')
      → Holds s' []
      → i_pos s' ≡ i_pos s + length bs
      → Block port i_pos Holds n s bs

pub read_bytes-Block :
    {S : Type 0} {port : Reader S} {i_pos : S → ℕ} {Holds : S → List ℕ → Type 0}
    → IsCounted port i_pos Holds
    → (n : ℕ) (s : S) (bs : List ℕ) → Holds s bs
    → Block port i_pos Holds n s bs
read_bytes-Block {Holds = Holds} reader n s bs h = elim (compare_with (length bs) n) [
  | inl few ↦ let (s', r, h', at) = reader.block_short s n bs few h in Block.partial s' few r h' at
  | inr many ↦
      let sized : length (take n bs) ≡ n = omega (arith, length-take n bs) in
      let (s', r, h', at) =
        reader.block_done s n (take n bs) (drop n bs) sized
          (subst (Holds s) (sym (take-append-drop n bs)) h) in
      Block.full (take n bs) (drop n bs) s' sized (take-append-drop n bs) r h' at
]
  where
    compare_with : (m n : ℕ) → (m < n) ⊎ (n ≤ m)
    compare_with m n = ground arith

read_bytes_rest :
    (port : MemoryPort) (n : ℕ) (bs : List ℕ)
    → length bs < n
    → Holds port bs
    → read_bytes_bm n port ≡ (short, bs, advance port (length bs))
unfolding read_bytes_bm advance
read_bytes_rest port n bs lt h =
    let too_long : leb n (length bs) ≡ false = ground arith in
    let moved : add_size port.i_pos (length bs) ≡ port.i_pos + length bs =
      omega (arith, length-left h, h.valid.size_fits) in
    rw (len_left h, too_long, moved, h.left, take_all bs (length bs) (omega arith))

-- A memory port counts what it delivers.
pub memory_reader-IsCounted : IsCounted memory_reader (λ port. port.i_pos) Holds
unfolding memory_reader advance
memory_reader-IsCounted = record {
  block_done = λ s n xs ys e h.
      (advance s n, read_bytes_done s n xs ys e h, advance-Holds s n xs ys e h, refl);
  block_short = λ s n bs lt h. (
    advance s (length bs),
    read_bytes_rest s n bs lt h,
    advance-Holds s (length bs) bs [] refl (same s bs h),
    refl,
  );
  fits = λ s bs h. omega (arith, length-left h, h.valid.size_fits);
}
  where
    same : (s : MemoryPort) (bs : List ℕ) → Holds s bs → Holds s (bs ++ [])
    same s bs h = record { valid = h.valid; left = h.left ∙ sym (append-nil bs) }

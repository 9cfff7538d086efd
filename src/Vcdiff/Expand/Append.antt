-- ===== src/Vcdiff/Expand/Append.antt =====
-- Expansion as appending: the buffer with its index against a result that grows.
use diagonal.Base.{
  ℕ, zero, suc, ◌+◌, ◌≤◌, ◌<◌, ◌≡◌, refl, ap, ◌∙◌, true, Option, none, some, List, [], ◌∷◌, ◌++◌,
  arith, append_assoc, append-nil, leb, lt→ltb, le→ltb, length, get_elem?, get_or, set, take, drop,
  replicate, length-append, length-replicate, length-take,
}
use diagonal.Base.Slices.{overwrite, take-append_left, drop-append_left}
use diagonal.Base.Word.{add_size, size_mod}
use diagonal.Vcdiff.Expand.{
  Pcode, noop_code, add_code, run_code, copy_code, unknown_code, pcode_size, Output, put, add_bytes,
  run_bytes, origin, copy_bytes,
}

-- COPY byte by byte: a byte that was appended can be copied in turn.
abbrev pub append_copy : Option (List ℕ) → ℕ → ℕ → List ℕ → List ℕ
append_copy source zero addr out = out
append_copy source (suc k) addr out =
    append_copy source k (addr + 1) (out ++ (get_or (origin source out) addr 0 ∷ []))

abbrev pub append_pcode : Option (List ℕ) → Pcode → List ℕ → List ℕ
append_pcode source (noop_code size) out = out
append_pcode source (add_code size bytes) out = out ++ take size bytes
append_pcode source (run_code size b) out = out ++ replicate size b
append_pcode source (copy_code size addr) out = append_copy source size addr out
append_pcode source (unknown_code size) out = out

abbrev pub append_pcodes : Option (List ℕ) → List Pcode → List ℕ → List ℕ
append_pcodes source [] out = out
append_pcodes source (p ∷ ps) out = append_pcodes source ps (append_pcode source p out)

abbrev pub total : List Pcode → ℕ
total [] = 0
total (p ∷ ps) = pcode_size p + total ps

-- What a COPY may read: a part of the source, or from what has been written.
abbrev pub Readable : Option (List ℕ) → List ℕ → ℕ → ℕ → Type 0
Readable none out addr size = addr < length out
Readable (some source) out addr size = (addr + size ≤ length source) × (addr + size < size_mod)

abbrev pub IsPcode : Option (List ℕ) → List ℕ → Pcode → Type 0
IsPcode source out (noop_code size) = Unit {0}
IsPcode source out (add_code size bytes) = size ≤ length bytes
IsPcode source out (run_code size b) = Unit {0}
IsPcode source out (copy_code size addr) = Readable source out addr size
IsPcode source out (unknown_code size) = Unit {0}

abbrev pub ArePcodes : Option (List ℕ) → List Pcode → List ℕ → Type 0
ArePcodes source [] out = Unit {0}
ArePcodes source (p ∷ ps) out =
    IsPcode source out p × ArePcodes source ps (append_pcode source p out)

-- The buffer with `m` bytes not yet written.
abbrev pub buffer : List ℕ → ℕ → Output
buffer out m = (out ++ replicate m 0, length out)

length-snoc : (out : List ℕ) (b : ℕ) → length (out ++ (b ∷ [])) ≡ length out + 1
length-snoc out b = length-append out (b ∷ [])

set-append :
    (out : List ℕ) (b z : ℕ) (zs : List ℕ)
    → set (out ++ (z ∷ zs)) (length out) b ≡ (out ++ (b ∷ [])) ++ zs
set-append [] b z zs = refl
set-append (x ∷ xs) b z zs = ap (λ t. x ∷ t) (set-append xs b z zs)

put_ok :
    (out : List ℕ) (m b : ℕ)
    → length out + suc m < size_mod
    → put b (buffer out (suc m)) ≡ some (buffer (out ++ (b ∷ [])) m)
unfolding put
put_ok out m b fits =
    let inside : length out < length (out ++ replicate (suc m) 0) =
      omega (arith, length-append out (replicate (suc m) 0)) in
    let next : add_size (length out) 1 ≡ length (out ++ (b ∷ [])) =
      omega (arith, length-snoc out b) in
    rw (lt→ltb _ _ inside, set-append out b 0 (replicate m 0), next)

pub run_bytes_ok :
    (k m r b : ℕ) (out : List ℕ)
    → r ≡ k + m
    → length out + r < size_mod
    → run_bytes k b (buffer out r) ≡ some (buffer (out ++ replicate k b) m)
unfolding run_bytes
run_bytes_ok zero m r b out e fits = let same : r ≡ m = omega arith in rw (same, append-nil out)
run_bytes_ok (suc k) m zero b out e fits = absurd (omega arith)
run_bytes_ok (suc k) m (suc r) b out e fits =
    let rest =
      run_bytes_ok k m r b (out ++ (b ∷ [])) (omega arith) (omega (arith, length-snoc out b)) in
    let moved = append_assoc out (b ∷ []) (replicate k b) in
    rw (put_ok out r b fits, run_bytes) (rest ∙ ap (λ t. some (buffer t m)) moved)

drop-replicate : (k m r : ℕ) → r ≡ k + m → drop k (replicate r zero) ≡ replicate m zero
drop-replicate zero m r e = ap (λ n. replicate n zero) {x = r} {y = m} (omega arith)
drop-replicate (suc k) m zero e = absurd (omega arith)
drop-replicate (suc k) m (suc r) e = drop-replicate k m r (omega arith)

overwrite-buffer :
    (out bytes : List ℕ) (m r : ℕ)
    → r ≡ length bytes + m
    → overwrite (out ++ replicate r 0) (length out) bytes ≡ (out ++ bytes) ++ replicate m 0
overwrite-buffer out bytes m r e = rw (
  take-append_left out (replicate r 0) (length out) refl,
  drop-append_left out (replicate r 0) (length out) refl,
  drop-replicate (length bytes) m r e,
  append_assoc out bytes (replicate m 0),
)

pub add_bytes_ok :
    (k m r : ℕ) (bytes out : List ℕ)
    → r ≡ k + m
    → length out + r < size_mod
    → k ≤ length bytes
    → add_bytes k bytes (buffer out r) ≡ some (buffer (out ++ take k bytes) m)
unfolding add_bytes
add_bytes_ok k m r bytes out e fits held =
    let whole = length-append out (replicate r 0) in
    let zeros = length-replicate r zero in
    let taken : length (take k bytes) ≡ k = omega (arith, length-take k bytes) in
    let inside : leb (length out + k) (length (out ++ replicate r 0)) ≡ true =
      ground (arith, whole, zeros) in
    let moved : add_size (length out) k ≡ length (out ++ take k bytes) =
      omega (arith, length-append out (take k bytes), taken) in
    rw (
      le→ltb (length bytes) k held,
      inside,
      overwrite-buffer out (take k bytes) m r (omega (arith, taken)),
      moved,
    )

get_or-append :
    (xs ys : List ℕ) (i : ℕ) → i < length xs → get_elem? (xs ++ ys) i ≡ some (get_or xs i 0)
get_or-append [] ys i h = absurd (omega arith)
get_or-append (x ∷ xs) ys zero h = refl
get_or-append (x ∷ xs) ys (suc i) h = get_or-append xs ys i (omega arith)

get_or_of_lt : (xs : List ℕ) (i : ℕ) → i < length xs → get_elem? xs i ≡ some (get_or xs i 0)
get_or_of_lt [] i h = absurd (omega arith)
get_or_of_lt (x ∷ xs) zero h = refl
get_or_of_lt (x ∷ xs) (suc i) h = get_or_of_lt xs i (omega arith)

Readable-at :
    (source : Option (List ℕ)) (out : List ℕ) (r addr k : ℕ)
    → Readable source out addr (suc k)
    → length out + r < size_mod
    → get_elem? (origin source (out ++ replicate r 0)) (add_size addr 0)
      ≡ some (get_or (origin source out) addr 0)
Readable-at none out r addr k h fits =
    let here : add_size addr 0 ≡ addr = omega arith in
    rw here (get_or-append out (replicate r 0) addr h)
Readable-at (some source) out r addr k h fits =
    let here : add_size addr 0 ≡ addr = omega (arith, h.1) in
    rw here (get_or_of_lt source addr (omega (arith, h.0)))

Readable-next :
    (source : Option (List ℕ)) (out : List ℕ) (addr k b : ℕ)
    → Readable source out addr (suc k)
    → Readable source (out ++ (b ∷ [])) (addr + 1) k
Readable-next none out addr k b h = omega (arith, length-snoc out b)
Readable-next (some source) out addr k b h = (omega (arith, h.0), omega (arith, h.1))

pub copy_bytes_ok :
    (source : Option (List ℕ)) (k m r addr i : ℕ) (out : List ℕ)
    → r ≡ k + m
    → length out + r < size_mod
    → Readable source out (addr + i) k
    → copy_bytes source k addr i (buffer out r)
      ≡ some (buffer (append_copy source k (addr + i) out) m)
unfolding copy_bytes
copy_bytes_ok source zero m r addr i out e fits h = let same : r ≡ m = omega arith in rw same
copy_bytes_ok source (suc k) m zero addr i out e fits h = absurd (omega arith)
copy_bytes_ok source (suc k) m (suc r) addr i out e fits h =
    let b = get_or (origin source out) (addr + i) 0 in
    let at : add_size (addr + i) 0 ≡ add_size addr i = omega arith in
    let found = rw at at (Readable-at source out (suc r) (addr + i) k h fits) in
    let next : addr + i + 1 ≡ addr + (i + 1) = omega arith in
    let rest =
      copy_bytes_ok source k m r addr (i + 1) (out ++ (b ∷ [])) (omega arith)
        (omega (arith, length-snoc out b))
        (rw (← next) (Readable-next source out (addr + i) k b h)) in
    rw (found, copy_bytes) (rw (put_ok out r b fits, copy_bytes) (rw next rest))

pub length-append_copy :
    (source : Option (List ℕ)) (k addr : ℕ) (out : List ℕ)
    → length (append_copy source k addr out) ≡ length out + k
length-append_copy source zero addr out = omega arith
length-append_copy source (suc k) addr out = omega (
  arith,
  length-append_copy source k (addr + 1) (out ++ (get_or (origin source out) addr 0 ∷ [])),
  length-snoc out (get_or (origin source out) addr 0),
)

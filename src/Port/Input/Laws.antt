-- ===== src/Port/Input/Laws.antt =====
-- Rules for reading in sequence from a port that `IsReader` describes.
use diagonal.Base.{
  ℕ, ◌≤◌, ◌<◌, ◌≡◌, refl, Bool, true, List, [], ◌∷◌, ◌++◌, arith, append_assoc, length,
  length-append,
}
use diagonal.Port.{Status, Reader, IsReader}
use diagonal.Port.Input.{Read, Input, pure, guard, ◌>>=◌, of_status, byte, bytes}

of_status-short : {S A : Type 0} (r : Status × A × S) → r.0 ≡ Status.short → of_status r ≡ Read.end
of_status-short (Status.done, a, s) e = cc
of_status-short (Status.short, a, s) e = refl
of_status-short (Status.fail, a, s) e = cc

module _ {S : Type 0} (port : Reader S) (Holds : S → List ℕ → Type 0)
    (law : IsReader port Holds) where
  pub byte_ok :
      (s : S) (b : ℕ) (bs : List ℕ)
      → Holds s (b ∷ bs)
      → (s' : S) × (byte port s ≡ Read.ok b s') × Holds s' bs
  unfolding byte
  byte_ok s b bs h = let (s', e, h') = law.byte_done s b bs h in (s', rw e, h')

  pub byte_end : (s : S) → Holds s [] → byte port s ≡ Read.end
  unfolding byte
  byte_end s h = of_status-short (port.read_byte s) (law.byte_short s h)

  pub bytes_end :
      (s : S) (n : ℕ) (bs : List ℕ) → length bs < n → Holds s bs → bytes port n s ≡ Read.end
  unfolding bytes
  bytes_end s n bs lt h = of_status-short (port.read_bytes n s) (law.bytes_short s n bs lt h)

-- With `xs` next on the port, and no more than `fuel` bytes left, `m` takes `xs` and returns `a`.
pub record Parses {S A : Type 0} (Holds : S → List ℕ → Type 0) (fuel : ℕ) (m : Input S A)
    (xs : List ℕ) (a : A) : Type 0 where
  pub run :
      (s : S) (rest : List ℕ)
      → Holds s (xs ++ rest)
      → length (xs ++ rest) ≤ fuel
      → (s' : S) × (m s ≡ Read.ok a s') × Holds s' rest

module _ {S : Type 0} {Holds : S → List ℕ → Type 0} {fuel : ℕ} where
  pub Parses-bind :
      {A B : Type 0} {m : Input S A} (f : A → Input S B) {xs : List ℕ} (ys : List ℕ) {a : A} {b : B}
      → Parses Holds fuel m xs a
      → Parses Holds fuel (f a) ys b
      → Parses Holds fuel (m >>= f) (xs ++ ys) b
  Parses-bind f {xs} ys p q = record {
    run = λ s rest h len.
        let h' : Holds s (xs ++ (ys ++ rest)) = rw append_assoc at h in
        let (s', e, k) = p.run s (ys ++ rest) h' (rw append_assoc at len) in
        let (s'', e', k') = q.run s' rest k (
          omega
            (arith, length-append (xs ++ ys) rest, length-append xs ys, length-append ys rest)) in
        (s'', rw e e', k');
  }

  pub Parses-pure : {A : Type 0} {a : A} → Parses Holds fuel (pure a) [] a
  Parses-pure = record { run = λ s rest h len. (s, refl, h) }

  pub Parses-guard : {b : Bool} → b ≡ true → Parses Holds fuel (guard b) [] tt
  Parses-guard e = record { run = λ s rest h len. (s, rw e, h) }

module _ {S : Type 0} {port : Reader S} {Holds : S → List ℕ → Type 0} (law : IsReader port Holds)
    {fuel : ℕ} where
  pub Parses-byte : {b : ℕ} → Parses Holds fuel (byte port) (b ∷ []) b
  Parses-byte {b} = record { run = λ s rest h len. byte_ok port Holds law s b rest h }

  pub Parses-bytes : {xs : List ℕ} {n : ℕ} → length xs ≡ n → Parses Holds fuel (bytes port n) xs xs
  unfolding bytes
  Parses-bytes {xs} {n} e = record {
    run = λ s rest h len. let (s', r, h') = law.bytes_done s n xs rest e h in (s', rw r, h');
  }

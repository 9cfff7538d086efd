-- ===== src/Port/Input.antt =====
-- Reading from a port in sequence: the chains `if ( (r = diag_port_read_…) <= 0) goto bail` of
-- src/vcdiff.c as a monad over the port.
pub mod Laws
use diagonal.Base.{ℕ, Bool, true, false, List}
use diagonal.Port.{Status, Reader}

-- `short` and `fail` are the reader's results 0 and -1, `bad` is input that the program rejects,
-- and `stuck` is a loop that ran out of fuel.
pub data Read (S A : Type 0) : Type 0 where
  ok : A → S → Read S A
  end : Read S A
  error : Read S A
  bad : Read S A
  stuck : Read S A

abbrev pub Input : Type 0 → Type 0 → Type 0
Input S A = S → Read S A

module _ {S : Type 0} where
  abbrev pub pure : {A : Type 0} → A → Input S A
  pure a s = Read.ok a s

  abbrev pub and_then : {A B : Type 0} → Read S A → (A → Input S B) → Read S B
  and_then (Read.ok a s) f = f a s
  and_then Read.end f = Read.end
  and_then Read.error f = Read.error
  and_then Read.bad f = Read.bad
  and_then Read.stuck f = Read.stuck

  infixl 5 ◌>>=◌ ◌>>◌
  abbrev pub ◌>>=◌ : {A B : Type 0} → Input S A → (A → Input S B) → Input S B
  ◌>>=◌ m f s = and_then (m s) f

  abbrev pub ◌>>◌ : {B : Type 0} → Input S (Unit {0}) → Input S B → Input S B
  m >> k = m >>= λ _. k

  abbrev pub guard : Bool → Input S (Unit {0})
  guard true s = Read.ok tt s
  guard false s = Read.bad

  abbrev pub of_status : {A : Type 0} → Status × A × S → Read S A
  of_status (Status.done, a, s) = Read.ok a s
  of_status (Status.short, a, s) = Read.end
  of_status (Status.fail, a, s) = Read.error

  module _ (port : Reader S) where
    unfoldable pub byte : Input S ℕ
    byte s = of_status (port.read_byte s)

    unfoldable pub bytes : ℕ → Input S (List ℕ)
    bytes n s = of_status (port.read_bytes n s)

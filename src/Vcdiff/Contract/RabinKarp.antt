-- ===== src/Vcdiff/Contract/RabinKarp.antt =====
-- The contraction with the Rabin-Karp hash of src/hash.c.
use diagonal.Base.{ℕ, suc, ◌≤◌, some, List, length, and_then}
use diagonal.Hash.{RollingHash32, new_rolling_hash, rabin_karp_init32, rabin_karp_roll32}
use diagonal.Hash.Rolling.{IsAt, roll-IsAt, init-IsAt}
use diagonal.Vcdiff.Contract.{Rolling}
use diagonal.Vcdiff.Contract.Search.{IsRolling}

-- `rh->init = rabin_karp_init32; rh->roll = rabin_karp_roll32;`
unfoldable pub rabin_karp : Rolling RollingHash32
rabin_karp = record {
  init = λ rh. let first = rabin_karp_init32 rh in (first.value, first);
  roll = λ rh. and_then (rabin_karp_roll32 rh) λ next. some (next.value, next);
}

pub rabin_karp-IsRolling :
    (bytes : List ℕ) (base k : ℕ)
    → suc k ≤ length bytes
    → IsRolling rabin_karp bytes (suc k) (new_rolling_hash bytes (suc k) base) (IsAt bytes base k)
unfolding rabin_karp
rabin_karp-IsRolling bytes base k fits = record {
  init_at = init-IsAt bytes base k fits;
  roll_at = λ i s h at.
      let (s', rolled, at') = roll-IsAt bytes base k i s h at in (s'.value, s', rw rolled, at');
}

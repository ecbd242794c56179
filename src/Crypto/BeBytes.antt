-- ===== src/Crypto/BeBytes.antt =====
-- `to_be_bytes` and `from_be_bytes` at every width; the program uses 4 and 8 bytes.
use native.Mathlib.Nat.{pow-suc}
use mathlib.Core.List.{foldl, foldl-append}
use simulation_taps_tt.Base.{
  ℕ, zero, suc, ◌+◌, ◌*◌, ◌/◌, ◌%◌, ◌^◌, ◌<◌, ◌≡◌, refl, ◌∙◌, [], ◌∷◌, ◌++◌, arith, Bytes, length,
  length-append,
}

unfoldable pub be_bytes : ℕ → ℕ → Bytes
be_bytes zero n = []
be_bytes (suc w) n = be_bytes w (n / 256) ++ ((n % 256) ∷ [])

abbrev shift_in : ℕ → ℕ → ℕ
shift_in acc b = acc * 256 + b

unfoldable pub from_be : Bytes → ℕ
from_be = foldl shift_in 0

pub length-be_bytes : (w n : ℕ) → length (be_bytes w n) ≡ w
unfolding be_bytes
length-be_bytes zero n = refl
length-be_bytes (suc w) n =
    omega
      (arith, length-append (be_bytes w (n / 256)) ((n % 256) ∷ []), length-be_bytes w (n / 256))

from_be-append : (xs : Bytes) (b : ℕ) → from_be (xs ++ (b ∷ [])) ≡ from_be xs * 256 + b
unfolding from_be
from_be-append xs b = rw foldl-append

-- A number that fits in `w` bytes is read back.
pub from_be-be_bytes : (w n : ℕ) → n < 256 ^ w → from_be (be_bytes w n) ≡ n
unfolding be_bytes from_be
from_be-be_bytes zero n h = omega arith
from_be-be_bytes (suc w) n h =
    from_be-append (be_bytes w (n / 256)) (n % 256)
    ∙ omega (arith, from_be-be_bytes w (n / 256) (omega (arith, pow-suc 256 w)))

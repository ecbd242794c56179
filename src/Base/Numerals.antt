-- ===== src/Base/Numerals.antt =====
-- Text, and its numbers as `str::parse` reads them and `to_string` writes them.
use Prim.Native.Nat.{ℕ, zero, suc, ◌+◌, ◌-◌, ◌*◌, ◌/◌, ◌%◌, ◌^◌, ◌<◌, ◌≤◌}
use mathlib.Core.Path.{◌≡◌, sym, ap, ◌∙◌}
use mathlib.Core.Logic.{inl, inr}
use mathlib.Core.Bool.{◌&&◌}
use mathlib.Core.Option.{Option, none, some}
use mathlib.Core.List.{List, [], ◌∷◌, ◌++◌}
use native.Mathlib.Omega.{arith}
use simulation_taps_tt.Base.Tests.{ltb, leb, ◌==◌, if◌then◌else◌, Bool-cases}

-- The code points of a string.
abbrev pub Text : Type 0
Text = List ℕ

-- The digits behind a number read so far; a value of more than `w` bits overflows.
unfoldable pub parse_digits : ℕ → ℕ → Text → Option ℕ
parse_digits w read [] = some read
parse_digits w read (d ∷ text) =
    let rest = parse_digits w (read * 10 + (d - 48)) text in
    if leb 48 d && leb d 57 then if ltb (read * 10 + (d - 48)) (2 ^ w) then rest else none else none

unfoldable pub parse_some_digits : ℕ → Text → Option ℕ
unfolding parse_digits
parse_some_digits w [] = none
parse_some_digits w (d ∷ text) = parse_digits w 0 (d ∷ text)

-- `parse` at an unsigned type of `w` bits: digits, with an optional plus sign.
unfoldable pub parse : ℕ → Text → Option ℕ
unfolding parse_some_digits
parse w [] = none
parse w (d ∷ text) = if d == 43 then parse_some_digits w text else parse_some_digits w (d ∷ text)

-- The decimal digits, with fuel for as many divisions.
unfoldable pub decimal : ℕ → ℕ → Text
decimal zero n = []
decimal (suc fuel) n =
    let rest = decimal fuel (n / 10) in
    if ltb n 10 then (48 + n) ∷ [] else rest ++ ((48 + n % 10) ∷ [])

-- `to_string`: a number has fewer digits than its successor.
unfoldable pub to_string : ℕ → Text
unfolding decimal
to_string n = decimal (suc n) n

parse_digits-append :
    (w read n : ℕ) (xs : Text) (d : ℕ)
    → parse_digits w read xs ≡ some n
    → d < 10
    → n * 10 + d < 2 ^ w
    → parse_digits w read (xs ++ ((48 + d) ∷ [])) ≡ some (n * 10 + d)
unfolding parse_digits
parse_digits-append w read n [] d h digit fits = ground (arith, h)
parse_digits-append w read n (x ∷ xs) d h digit fits =
    ground (arith, h, parse_digits-append w (read * 10 + (x - 48)) n xs d)

parse_digits-decimal :
    (w fuel n : ℕ) → n < fuel → n < 2 ^ w → parse_digits w 0 (decimal fuel n) ≡ some n
unfolding decimal parse_digits
parse_digits-decimal w zero n h fits = absurd (omega (arith, h))
parse_digits-decimal w (suc fuel) n h fits = elim (Bool-cases (ltb n 10)) [
  | inl small ↦ ground (arith, small)
  | inr large ↦
      let tenth : n / 10 < fuel = ground (arith, large, h) in
      let whole : n / 10 * 10 + n % 10 ≡ n = omega arith in
      let e =
        parse_digits-append w 0 (n / 10) (decimal fuel (n / 10)) (n % 10)
          (parse_digits-decimal w fuel (n / 10) tenth (omega (arith, fits))) (omega arith)
          (omega (arith, fits)) in
      ground (arith, large, e, whole)
]

-- A decimal is not empty and does not begin with a plus sign, so the sign is no matter.
pub decimal_first :
    (fuel n : ℕ) → n < fuel → (d : ℕ) × (text : Text) × (decimal fuel n ≡ d ∷ text) × (48 ≤ d)
unfolding decimal
decimal_first zero n h = absurd (omega (arith, h))
decimal_first (suc fuel) n h = elim (Bool-cases (ltb n 10)) [
  | inl small ↦ (48 + n, [], ground (arith, small), omega arith)
  | inr large ↦
      let (d, text, e, le) = decimal_first fuel (n / 10) (ground (arith, large, h)) in
      (d, text ++ ((48 + n % 10) ∷ []), ground (arith, large, e), le)
]

parse_unsigned : (w d : ℕ) (text : Text) → 48 ≤ d → parse w (d ∷ text) ≡ parse_digits w 0 (d ∷ text)
unfolding parse parse_some_digits
parse_unsigned w d text le = ground arith

-- A number that fits into `w` bits is read back from its decimal digits.
pub parse-to_string : (w n : ℕ) → n < 2 ^ w → parse w (to_string n) ≡ some n
unfolding to_string
parse-to_string w n fits =
    let (d, text, e, le) = decimal_first (suc n) n (omega arith) in
    let r = parse_digits-decimal w (suc n) n (omega arith) fits in
    ap (parse w) e ∙ parse_unsigned w d text le ∙ sym (ap (parse_digits w 0) e) ∙ r

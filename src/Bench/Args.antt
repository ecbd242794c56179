-- ===== src/Bench/Args.antt =====
-- src/bench_config.rs
use simulation_taps_tt.Base.{ℕ, none, some, List, [], ◌∷◌, map, length, leb, if◌then◌else◌}
use simulation_taps_tt.Base.Outcome.{Outcome, ok, err, ◌>>=◌}
use simulation_taps_tt.Base.Numerals.{Text, parse}

pub record Scenario : Type 0 where
  pub n : ℕ
  pub n3 : ℕ
  pub repeats : ℕ

-- The names that the messages give the arguments.
pub data ArgName : Type 0 where
  arg_n arg_n3 arg_repeats : ArgName

-- The `String` errors.
pub data ArgsError : Type 0 where
  invalid : ArgName → Text → ArgsError
  expected_count : ℕ → ArgsError

unfoldable pub default_scenarios : List Scenario
default_scenarios =
    map {A = ℕ × ℕ} (λ p. record { n = p.0; n3 = p.1; repeats = 1 })
      ((10, 1) ∷ (10, 5) ∷ (25, 1) ∷ (25, 5) ∷ (50, 1) ∷ (50, 5) ∷ (100, 1) ∷ (100, 5) ∷ [])

unfoldable pub parse_positive : Text → ArgName → Outcome ArgsError ℕ
parse_positive value name = elim (parse 64 value) [
  | some v ↦ if leb 1 v then ok v else err (invalid name value)
  | none ↦ err (invalid name value)
]

unfoldable pub parse_args : List Text → Outcome ArgsError (List Scenario)
unfolding parse_positive
parse_args [] = ok default_scenarios
parse_args (n ∷ []) = err (expected_count 1)
parse_args (n ∷ n3 ∷ []) = do
  n' ← parse_positive n arg_n
  n3' ← parse_positive n3 arg_n3
  ok (record { n = n'; n3 = n3'; repeats = 1 } ∷ [])
parse_args (n ∷ n3 ∷ repeats ∷ []) = do
  n' ← parse_positive n arg_n
  n3' ← parse_positive n3 arg_n3
  repeats' ← parse_positive repeats arg_repeats
  ok (record { n = n'; n3 = n3'; repeats = repeats' } ∷ [])
parse_args (n ∷ n3 ∷ repeats ∷ extra ∷ more) =
    err (expected_count (length (n ∷ n3 ∷ repeats ∷ extra ∷ more)))

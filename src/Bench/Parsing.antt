-- ===== src/Bench/Parsing.antt =====
-- What is written is read back, and what is accepted is a scenario that can be run.
use simulation_taps_tt.Base.{
  ℕ, ◌^◌, ◌<◌, ◌≤◌, ◌≡◌, List, [], ◌∷◌, Every, inl, inr, Option-cases, arith,
}
use simulation_taps_tt.Base.Outcome.{ok, Safe, Safe-bind}
use simulation_taps_tt.Base.Numerals.{Text, parse, to_string, parse-to_string}
use simulation_taps_tt.Bench.Args.{
  Scenario, ArgName, arg_n, arg_n3, arg_repeats, default_scenarios, parse_positive, parse_args,
}

-- A scenario that can be run: all its numbers are at least 1.
pub record IsRunnable (s : Scenario) : Type 0 where
  pub n_positive : 1 ≤ s.n
  pub n3_positive : 1 ≤ s.n3
  pub repeats_positive : 1 ≤ s.repeats

parse_positive-Safe :
    (value : Text) (name : ArgName) → Safe (λ v. 1 ≤ v) (parse_positive value name)
unfolding parse_positive
parse_positive-Safe value name = elim (Option-cases (parse 64 value)) [
  | inl unread ↦ ground (arith, unread)
  | inr (v, read) ↦ ground (arith, read)
]

runnable : (n n3 : ℕ) → 1 ≤ n → 1 ≤ n3 → IsRunnable (record { n = n; n3 = n3; repeats = 1 })
runnable n n3 h k = record { n_positive = h; n3_positive = k; repeats_positive = omega arith }

-- Whatever the arguments are, they are parsed without a panic, and every scenario that is accepted
-- has at least one signer, one tracer and one run.
pub parse_args-IsRunnable : (args : List Text) → Safe (Every IsRunnable) (parse_args args)
unfolding parse_args default_scenarios
parse_args-IsRunnable [] = (
  runnable 10 1 (omega arith) (omega arith),
  (
    runnable 10 5 (omega arith) (omega arith),
    (
      runnable 25 1 (omega arith) (omega arith),
      (
        runnable 25 5 (omega arith) (omega arith),
        (
          runnable 50 1 (omega arith) (omega arith),
          (
            runnable 50 5 (omega arith) (omega arith),
            (
              runnable 100 1 (omega arith) (omega arith),
              (runnable 100 5 (omega arith) (omega arith), tt),
            ),
          ),
        ),
      ),
    ),
  ),
)
parse_args-IsRunnable (n ∷ []) = tt
parse_args-IsRunnable (n ∷ n3 ∷ []) =
    Safe-bind (Every IsRunnable) (λ v. 1 ≤ v) (parse_positive n arg_n) _
      (parse_positive-Safe n arg_n)
      λ n' h.
        Safe-bind (Every IsRunnable) (λ v. 1 ≤ v) (parse_positive n3 arg_n3) _
          (parse_positive-Safe n3 arg_n3) λ n3' k. (runnable n' n3' h k, tt)
parse_args-IsRunnable (n ∷ n3 ∷ repeats ∷ []) =
    Safe-bind (Every IsRunnable) (λ v. 1 ≤ v) (parse_positive n arg_n) _
      (parse_positive-Safe n arg_n)
      λ n' h.
        Safe-bind (Every IsRunnable) (λ v. 1 ≤ v) (parse_positive n3 arg_n3) _
          (parse_positive-Safe n3 arg_n3)
          λ n3' k.
            Safe-bind (Every IsRunnable) (λ v. 1 ≤ v) (parse_positive repeats arg_repeats) _
              (parse_positive-Safe repeats arg_repeats)
              λ repeats' l. (record { n_positive = h; n3_positive = k; repeats_positive = l }, tt)
parse_args-IsRunnable (n ∷ n3 ∷ repeats ∷ extra ∷ more) = tt

-- The arguments that a scenario of 64-bit numbers is written as are parsed to it.
pub parse_args-to_string :
    (n n3 repeats : ℕ)
    → 1 ≤ n
    → n < 2 ^ 64
    → 1 ≤ n3
    → n3 < 2 ^ 64
    → 1 ≤ repeats
    → repeats < 2 ^ 64
    → parse_args (to_string n ∷ to_string n3 ∷ to_string repeats ∷ [])
      ≡ ok (record { n = n; n3 = n3; repeats = repeats } ∷ [])
unfolding parse_args parse_positive
parse_args-to_string n n3 repeats n_positive n_fits n3_positive n3_fits repeats_positive
      repeats_fits =
    ground (
      arith,
      parse-to_string 64 n n_fits,
      parse-to_string 64 n3 n3_fits,
      parse-to_string 64 repeats repeats_fits,
    )

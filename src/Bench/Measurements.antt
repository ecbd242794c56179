-- ===== src/Bench/Measurements.antt =====
-- What a suite of runs measures, without the tables that src/bench_stats.rs keeps.
use mathlib.Core.List.{append_assoc, append-nil}
use simulation_taps_tt.Base.{
  ℕ, ◌+◌, ◌≡◌, refl, sym, ap, ◌∙◌, Bool, true, false, ◌&&◌, none, some, List, [], ◌∷◌, ◌++◌, inl,
  inr, Bool-cases, eq_bytes, ◌==◌, if◌then◌else◌, arith,
}
use simulation_taps_tt.Bench.Assoc.{find, put, find-put}
use simulation_taps_tt.Bench.Lines.{Actor, signer, combiner, tracer, BenchRecord}
use simulation_taps_tt.Bench.Stats.{
  Role, role_signer, role_combiner, role_tracer, rank, role_of, Key, key_of, same_key,
  same_scenario, Summarizer, new_summarizer, push, add_records, add_run,
}
use simulation_taps_tt.Bench.Collection.{
  values_for, measured, add_run-values_for, same_scenario_sound, same_scenario_refl,
}
use simulation_taps_tt.Bench.Consistency.{add_runs, push_runs}

-- The runs of a suite: the `n` and `n3` of each, and its records.
abbrev pub Series : Type 0
Series = List ((ℕ × ℕ) × List BenchRecord)

-- Whether an actor has the role.
abbrev pub plays : Role → Actor → Bool
plays role_signer (signer _) = true
plays role_signer combiner = false
plays role_signer (tracer _) = false
plays role_combiner (signer _) = false
plays role_combiner combiner = true
plays role_combiner (tracer _) = false
plays role_tracer (signer _) = false
plays role_tracer combiner = false
plays role_tracer (tracer _) = true

-- What the actors of the key's role measured for its operation, among the records of a run.
abbrev pub measured_in : Key → List BenchRecord → List ℕ
measured_in key [] = []
measured_in key (r ∷ later) =
    let rest = measured_in key later in
    if plays key.role r.actor && eq_bytes key.operation r.phase then r.micros ∷ rest else rest

-- The same, in all runs of the key's scenario.
abbrev pub measurements : Series → Key → List ℕ
measurements [] key = []
measurements (((n, n3), records) ∷ later) key =
    (if (key.n == n) && (key.n3 == n3) then measured_in key records else [])
    ++ measurements later key

-- How many runs of a scenario there are.
abbrev pub number_of_runs : Series → ℕ → ℕ → ℕ
number_of_runs [] n n3 = 0
number_of_runs (((m, m3), records) ∷ later) n n3 =
    (if (n == m) && (n3 == m3) then 1 else 0) + number_of_runs later n n3

plays_lem : (role : Role) (actor : Actor) → (rank role == rank (role_of actor)) ≡ plays role actor
unfolding role_of
plays_lem role_signer (signer _) = refl
plays_lem role_signer combiner = refl
plays_lem role_signer (tracer _) = refl
plays_lem role_combiner (signer _) = refl
plays_lem role_combiner combiner = refl
plays_lem role_combiner (tracer _) = refl
plays_lem role_tracer (signer _) = refl
plays_lem role_tracer combiner = refl
plays_lem role_tracer (tracer _) = refl

measured_lem :
    (key : Key) (n n3 : ℕ) (records : List BenchRecord)
    → measured key n n3 records
      ≡ (if (key.n == n) && (key.n3 == n3) then measured_in key records else [])
unfolding same_key
measured_lem key n n3 [] = ground arith
measured_lem key n n3 (r ∷ later) =
    ground (arith, measured_lem key n n3 later, plays_lem key.role r.actor)

-- What is on file for a key, when the runs of a suite have been added.
values_for-add_runs :
    (key : Key) (suite : Series) (s : Summarizer)
    → values_for key (add_runs suite s) ≡ values_for key s ++ measurements suite key
values_for-add_runs key [] s = sym (append-nil (values_for key s))
values_for-add_runs key (((n, n3), records) ∷ later) s =
    values_for-add_runs key later (add_run n n3 records s)
    ∙ ap (λ t. t ++ measurements later key)
        (add_run-values_for key n n3 records s
          ∙ ap (λ t. values_for key s ++ t) (measured_lem key n n3 records))
    ∙ append_assoc (values_for key s) _ (measurements later key)

pub values_for_suite :
    (key : Key) (suite : Series)
    → values_for key (add_runs suite new_summarizer) ≡ measurements suite key
unfolding new_summarizer
values_for_suite key suite = values_for-add_runs key suite new_summarizer

-- The number of runs on file for a scenario.
abbrev runs_for : ℕ → ℕ → Summarizer → ℕ
runs_for n n3 s = elim (find same_scenario (n, n3) s.runs) [ none ↦ 0 | some k ↦ k ]

add_records_runs :
    (n n3 : ℕ) (records : List BenchRecord) (s : Summarizer)
    → (add_records n n3 records s).runs ≡ s.runs
unfolding add_records
add_records_runs n n3 [] s = refl
add_records_runs n n3 (r ∷ later) s =
    add_records_runs n n3 later (push (key_of n n3 r) r.micros s)
    ∙ push_runs (key_of n n3 r) r.micros s

runs_for-add_run :
    (i j n n3 : ℕ) (records : List BenchRecord) (s : Summarizer)
    → runs_for i j (add_run n n3 records s)
      ≡ (if (i == n) && (j == n3) then 1 else 0) + runs_for i j s
unfolding add_run same_scenario
runs_for-add_run i j n n3 records s =
    ap (λ t. elim (find same_scenario (i, j) t) [ none ↦ 0 | some k ↦ k ])
      (add_records_runs n n3 records
        (record s { runs = put same_scenario (n, n3) (before + 1) s.runs }))
    ∙ counted
  where
    before : ℕ
    before = runs_for n n3 s

    after :
        find same_scenario (i, j) (put same_scenario (n, n3) (before + 1) s.runs)
        ≡ (if (i == n) && (j == n3) then some (before + 1) else find same_scenario (i, j) s.runs)
    after =
        find-put same_scenario same_scenario_sound same_scenario_refl (i, j) (n, n3) (before + 1)
          s.runs

    counted :
        elim (find same_scenario (i, j) (put same_scenario (n, n3) (before + 1) s.runs))
          as (λ _. ℕ) [ none ↦ 0 | some k ↦ k ]
        ≡ (if (i == n) && (j == n3) then 1 else 0) + runs_for i j s
    counted = elim (Bool-cases ((i == n) && (j == n3))) [
      | inl same ↦
          let ei : i ≡ n = ground (arith, same) in
          let ej : j ≡ n3 = ground (arith, same) in
          let e : before ≡ runs_for i j s = cc (ei, ej) in rw (after, same) (omega (arith, e))
      | inr other ↦ rw (after, other) (omega arith)
    ]

number_on_file :
    (i j : ℕ) (suite : Series) (s : Summarizer)
    → runs_for i j (add_runs suite s) ≡ number_of_runs suite i j + runs_for i j s
number_on_file i j [] s = omega arith
number_on_file i j (((n, n3), records) ∷ later) s =
    omega (
      arith,
      number_on_file i j later (add_run n n3 records s),
      runs_for-add_run i j n n3 records s,
    )

pub runs_of_suite :
    (i j k : ℕ) (suite : Series)
    → find same_scenario (i, j) (add_runs suite new_summarizer).runs ≡ some k
    → k ≡ number_of_runs suite i j
unfolding new_summarizer
runs_of_suite i j k suite e = ground (arith, e, number_on_file i j suite new_summarizer)

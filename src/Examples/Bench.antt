-- ===== src/Examples/Bench.antt =====
-- The theorems about the benchmark's output and statistics, at two small runs.
use simulation_taps_tt.Base.{
  Any, true, false, ◌↔◌, if◌then◌else◌, ◌==◌, ℕ, ◌+◌, ◌*◌, ◌/◌, ◌-◌, ◌≡◌, refl, Bool, none, List,
  [], ◌∷◌, ◌++◌, arith,
}
use simulation_taps_tt.Base.Outcome.{ok}
use simulation_taps_tt.Base.Numerals.{Text, parse}
use simulation_taps_tt.Bench.{
  Scenario, Exit, running, run_scenario, create_raw, write_summary, finished, run_suite, parse_args,
  parse_positive, combiner, signer, tracer, BenchRecord, collect_records, parse_bench_line,
  role_signer, Key, new_summarizer, Floats, OperationSummary, summaries,
}
use simulation_taps_tt.Bench.Waiting
use simulation_taps_tt.Bench.Waiting.{Exits, processes_of, Succeeds, run_scenario_reports}
use simulation_taps_tt.Bench.RawRows.{signer_line, combiner_line, tracer_line}
use simulation_taps_tt.Bench.RunLog.{log_scenarios, successful, failed, log_lines}
use simulation_taps_tt.Bench.Report.{run_suite_reports}
use simulation_taps_tt.Bench.Output.{
  Printed, measurement, other, output_of, measurements_of, collect_records_complete,
}
use simulation_taps_tt.Bench.Consistency.{add_runs}
use simulation_taps_tt.Bench.Order.{IsSorted, IsDistinct}
use simulation_taps_tt.Bench.Measurements.{measurements}
use simulation_taps_tt.Bench.Summaries.{AreSummaries, summaries_total}

-- `sign`
abbrev sign_phase : Text
sign_phase = 115 ∷ 105 ∷ 103 ∷ 110 ∷ []

abbrev signer_output : Text
signer_output =
    66 ∷ 69 ∷ 78 ∷ 67 ∷ 72 ∷ 44 ∷ 115 ∷ 105 ∷ 103 ∷ 110 ∷ 44 ∷ 49 ∷ 50 ∷ 13 ∷ 10 ∷ 111 ∷ 107 ∷ 10
    ∷ []

signer_records :
    collect_records (signer 0) signer_output
    ≡ record { actor = signer 0; phase = sign_phase; micros = 12 } ∷ []
unfolding collect_records parse_bench_line parse
signer_records = refl

-- A measurement, the line `ok`, and another measurement.
abbrev printed : List Printed
printed = measurement sign_phase 12 ∷ other (111 ∷ 107 ∷ []) ∷ measurement (118 ∷ []) 7 ∷ []

ok_unread : parse_bench_line (111 ∷ 107 ∷ []) ≡ none
unfolding parse_bench_line
ok_unread = refl

collect_records_complete_example :
    collect_records (tracer 4) (output_of printed) ≡ measurements_of (tracer 4) printed
collect_records_complete_example = collect_records_complete (tracer 4) printed (
  (((refl, (refl, (refl, (refl, tt)))), (refl, (refl, (refl, (refl, tt))))), omega arith),
  ((((refl, (refl, tt)), refl), ok_unread), ((((refl, tt), (refl, tt)), omega arith), tt)),
)

abbrev run_records : List BenchRecord
run_records =
    record { actor = signer 0; phase = sign_phase; micros = 12 }
    ∷ record { actor = combiner; phase = sign_phase; micros = 90 }
    ∷ record { actor = signer 1; phase = sign_phase; micros = 14 }
    ∷ []

abbrev sign_key : Key
sign_key = record { n = 2; n3 = 1; role = role_signer; operation = sign_phase }

-- Whole numbers for floating-point ones.
abbrev whole : Floats
whole = record {
  Float = ℕ;
  zero_float = 0;
  of_nat = λ n. n;
  add = λ a b. a + b;
  sub = λ a b. a - b;
  div = λ a b. a / b;
  square = λ a. a * a;
  sqrt = λ a. a;
}

abbrev suite : List ((ℕ × ℕ) × List BenchRecord)
suite = ((2, 1), run_records) ∷ ((2, 1), run_records) ∷ []

summaries_total_example :
    (keys : List Key) × (outs : List (OperationSummary whole)) × (summaries whole {E = Bool}
        (add_runs suite new_summarizer)
      ≡ ok outs)
    × IsSorted keys
    × IsDistinct keys
    × ((key : Key)
        → Any (λ k. k ≡ key) keys
          ↔ ((v : ℕ) × (later : List ℕ) × (measurements suite key ≡ v ∷ later)))
    × AreSummaries whole suite keys outs
summaries_total_example = summaries_total whole Bool suite

-- A run in which every process prints the same and ends well, and one whose second signer fails.
abbrev good_exit : Exit
good_exit = record { success = true; stdout = signer_output }

abbrev bad_exit : Exit
bad_exit = record { success = false; stdout = [] }

abbrev good_run : Exits
good_run = record {
  combiner_exit = good_exit;
  signer_exit = λ _. good_exit;
  tracer_exit = λ _. good_exit;
  authority_ending = running;
}

abbrev bad_run : Exits
bad_run = record good_run { signer_exit = λ i. if i == 1 then bad_exit else good_exit }

run_scenario_reports_example :
    (success : Bool) × (run_scenario {E = ℕ} (processes_of bad_run) 2 1
      ≡ ok (success, Waiting.run_records bad_run 2 1))
    × ((success ≡ true) ↔ Succeeds bad_run 2 1)
run_scenario_reports_example = run_scenario_reports ℕ bad_run 2 1

abbrev two_runs : ℕ → ℕ → Exits
two_runs _ run = if run == 1 then good_run else bad_run

-- `2`, `1`, `2`
abbrev two_run_args : List Text
two_run_args = (50 ∷ []) ∷ (49 ∷ []) ∷ (50 ∷ []) ∷ []

abbrev two_run_scenario : Scenario
two_run_scenario = record { n = 2; n3 = 1; repeats = 2 }

abbrev one_digit : ℕ → Text
one_digit n = (48 + n) ∷ []

two_runs_parsed : parse_args two_run_args ≡ ok (two_run_scenario ∷ [])
unfolding parse_args parse_positive parse
two_runs_parsed = refl

run_suite_reports_example :
    let log = log_scenarios two_runs 0 (two_run_scenario ∷ []) in
    (summary : Text) × (run_suite {E = ℕ} whole one_digit true
        (λ i run. processes_of (two_runs i run))
        two_run_args
      ≡ ok (
          finished
            (if failed log == 0 then 0 else 1)
            (record {
              signers = create_raw.signers ++ log_lines signer_line log;
              combiner = create_raw.combiner ++ log_lines combiner_line log;
              tracers = create_raw.tracers ++ log_lines tracer_line log;
            })
            summary))
    × (write_summary whole one_digit {E = ℕ} (add_runs (successful log) new_summarizer)
        ≡ ok summary)
run_suite_reports_example =
    run_suite_reports ℕ whole one_digit two_runs two_run_args (two_run_scenario ∷ [])
      two_runs_parsed

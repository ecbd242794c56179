-- ===== src/Bench/Program.antt =====
-- `main` of src/bin/benchmark.rs, with the processes of every run as an argument.
use simulation_taps_tt.Base.{
  ℕ, zero, suc, ◌+◌, Bool, true, false, List, [], ◌∷◌, ◌==◌, if◌then◌else◌,
}
use simulation_taps_tt.Base.Outcome.{Outcome, ok, err, panic, ◌>>=◌, ◌>>◌}
use simulation_taps_tt.Base.Numerals.{Text}
use simulation_taps_tt.Bench.Args.{Scenario, ArgsError, parse_args}
use simulation_taps_tt.Bench.Stats.{Summarizer, new_summarizer, add_run, Floats}
use simulation_taps_tt.Bench.Files.{RawFiles, create_raw, write_raw, write_summary}
use simulation_taps_tt.Bench.Runs.{Processes, run_scenario}

-- What the loops of `main` change: the files, the statistics, and the failures of all scenarios so
-- far and of the one that is running.
pub record Suite : Type 0 where
  pub raw : RawFiles
  pub summary : Text
  pub summarizer : Summarizer
  pub failures : ℕ
  pub scenario_failures : ℕ

-- The status that the program exits with, and the files that it leaves. With wrong arguments it
-- exits with 2, and writes none.
pub data Finish : Type 0 where
  usage : ArgsError → Finish
  finished : (code : ℕ) → RawFiles → Text → Finish

module _ {E : Type 0} (f : Floats) (fixed2 : f.Float → Text) where
  -- The body of the loop over the runs.
  unfoldable pub one_run : Processes → Scenario → ℕ → Suite → Outcome E Suite
  unfolding run_scenario write_raw write_summary
  one_run p scenario run s = do
    (success, records) ← run_scenario p scenario.n scenario.n3
    let raw = write_raw scenario.n scenario.n3 run records s.raw
    elim success [
      | true ↦ (do
        let summarizer = add_run scenario.n scenario.n3 records s.summarizer
        summary ← write_summary f fixed2 summarizer
        ok (record s { raw = raw; summarizer = summarizer; summary = summary }))
      | false ↦ ok (record s { raw = raw; scenario_failures = s.scenario_failures + 1 })
    ]

  -- `for run in 1..=scenario.repeats`, with `left` runs to go.
  unfoldable pub run_repeats : (ℕ → Processes) → Scenario → ℕ → ℕ → Suite → Outcome E Suite
  unfolding one_run
  run_repeats processes scenario zero run s = ok s
  run_repeats processes scenario (suc left) run s =
      one_run (processes run) scenario run s >>= run_repeats processes scenario left (suc run)

  -- `for scenario in &scenarios`. `processes i run` are those of the `i`-th scenario's run.
  unfoldable pub run_scenarios : (ℕ → ℕ → Processes) → ℕ → List Scenario → Suite → Outcome E Suite
  unfolding run_repeats
  run_scenarios processes i [] s = ok s
  run_scenarios processes i (scenario ∷ later) s = do
    s' ← run_repeats (processes i) scenario scenario.repeats 1 (record s { scenario_failures = 0 })
    run_scenarios processes (suc i) later
        (record s' { failures = s'.failures + s'.scenario_failures })

  -- `builds` says whether `cargo build` is run, and succeeds.
  unfoldable pub run_suite : Bool → (ℕ → ℕ → Processes) → List Text → Outcome E Finish
  unfolding run_scenarios create_raw write_summary
  run_suite builds processes args = elim (parse_args args) [
    | err e ↦ ok (usage e)
    | panic p ↦ panic p
    | ok scenarios ↦ do
      summary ← write_summary f fixed2 new_summarizer
      (if builds then ok tt else panic "cargo build --release --bins failed")
      s ← run_scenarios processes 0 scenarios (record {
        raw = create_raw;
        summary = summary;
        summarizer = new_summarizer;
        failures = 0;
        scenario_failures = 0;
      })
      ok (finished (if s.failures == 0 then 0 else 1) s.raw s.summary)
  ]

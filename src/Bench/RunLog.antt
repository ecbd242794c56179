-- ===== src/Bench/RunLog.antt =====
-- The runs of a suite as src/bin/benchmark.rs reports them, and the lines that they leave.
use simulation_taps_tt.Base.{
  ℕ, zero, suc, ◌+◌, ◌≡◌, refl, ap, sym, ◌∙◌, Bool, List, [], ◌∷◌, ◌++◌, if◌then◌else◌, arith,
}
use simulation_taps_tt.Base.Numerals.{Text}
use simulation_taps_tt.Bench.Args.{Scenario}
use simulation_taps_tt.Bench.Lines.{BenchRecord}
use simulation_taps_tt.Bench.Stats.{Summarizer, add_run}
use simulation_taps_tt.Bench.Files.{RawFiles, write_raw}
use simulation_taps_tt.Bench.Consistency.{add_runs}
use simulation_taps_tt.Bench.RawRows.{
  joined, signer_line, combiner_line, tracer_line, extended, extended_none, extended_twice,
  write_raw-extended,
}
use simulation_taps_tt.Bench.Waiting.{Exits, run_succeeds, run_records}

-- A run as it is reported.
pub record Logged : Type 0 where
  pub scenario : Scenario
  pub run : ℕ
  pub success : Bool
  pub records : List BenchRecord

abbrev pub logged : Exits → Scenario → ℕ → Logged
logged e scenario run = record {
  scenario = scenario;
  run = run;
  success = run_succeeds e scenario.n scenario.n3;
  records = run_records e scenario.n scenario.n3;
}

-- The runs of a scenario, and those of a suite, in order.
abbrev pub log_repeats : (ℕ → Exits) → Scenario → ℕ → ℕ → List Logged
log_repeats exits scenario zero run = []
log_repeats exits scenario (suc left) run =
    logged (exits run) scenario run ∷ log_repeats exits scenario left (suc run)

abbrev pub log_scenarios : (ℕ → ℕ → Exits) → ℕ → List Scenario → List Logged
log_scenarios exits i [] = []
log_scenarios exits i (scenario ∷ later) =
    log_repeats (exits i) scenario scenario.repeats 1 ++ log_scenarios exits (suc i) later

-- The successful runs, with their scenarios.
abbrev pub successful : List Logged → List ((ℕ × ℕ) × List BenchRecord)
successful [] = []
successful (l ∷ later) =
    let rest = successful later in
    if l.success then ((l.scenario.n, l.scenario.n3), l.records) ∷ rest else rest

abbrev pub failed : List Logged → ℕ
failed [] = 0
failed (l ∷ later) = (if l.success then 0 else 1) + failed later

-- The raw files behind every run, failed ones included.
abbrev pub raw_after : List Logged → RawFiles → RawFiles
raw_after [] files = files
raw_after (l ∷ later) files =
    raw_after later (write_raw l.scenario.n l.scenario.n3 l.run l.records files)

pub failed-append : (xs ys : List Logged) → failed (xs ++ ys) ≡ failed xs + failed ys
failed-append [] ys = omega arith
failed-append (x ∷ xs) ys = omega (arith, failed-append xs ys)

pub raw_after-append :
    (xs ys : List Logged) (files : RawFiles)
    → raw_after (xs ++ ys) files ≡ raw_after ys (raw_after xs files)
raw_after-append [] ys files = refl
raw_after-append (x ∷ xs) ys files =
    raw_after-append xs ys (write_raw x.scenario.n x.scenario.n3 x.run x.records files)

pub successful-append :
    (xs ys : List Logged) → successful (xs ++ ys) ≡ successful xs ++ successful ys
successful-append [] ys = refl
successful-append (x ∷ xs) ys = ground (arith, successful-append xs ys)

pub add_runs-append :
    (xs ys : List ((ℕ × ℕ) × List BenchRecord)) (s : Summarizer)
    → add_runs (xs ++ ys) s ≡ add_runs ys (add_runs xs s)
add_runs-append [] ys s = refl
add_runs-append (((n, n3), records) ∷ xs) ys s = add_runs-append xs ys (add_run n n3 records s)

-- The lines of a kind that the runs of a log have.
abbrev pub log_lines : (ℕ → ℕ → ℕ → BenchRecord → Text) → List Logged → Text
log_lines line = joined (λ (l : Logged). joined (line l.scenario.n l.scenario.n3 l.run) l.records)

pub raw_after-extended :
    (log : List Logged) (files : RawFiles)
    → raw_after log files
      ≡ extended
          (log_lines signer_line log)
          (log_lines combiner_line log)
          (log_lines tracer_line log)
          files
raw_after-extended [] files = sym (extended_none files)
raw_after-extended (l ∷ later) files =
    raw_after-extended later (write_raw l.scenario.n l.scenario.n3 l.run l.records files)
    ∙ ap (extended _ _ _) (write_raw-extended l.scenario.n l.scenario.n3 l.run l.records files)
    ∙ extended_twice _ _ _ _ _ _ files

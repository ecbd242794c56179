-- ===== src/Bench/Report.antt =====
-- What the files of src/bin/benchmark.rs hold when it finishes.
use simulation_taps_tt.Base.{
  ℕ, zero, suc, ◌+◌, ◌≡◌, refl, ap, sym, subst, ◌∙◌, true, List, [], ◌∷◌, ◌++◌, inl, inr,
  Bool-cases, ◌==◌, if◌then◌else◌, arith,
}
use simulation_taps_tt.Base.Outcome.{ok, Outcome-cases}
use simulation_taps_tt.Base.Numerals.{Text}
use simulation_taps_tt.Bench.Args.{Scenario, parse_args}
use simulation_taps_tt.Bench.Stats.{Summarizer, new_summarizer, add_run, Floats}
use simulation_taps_tt.Bench.Files.{create_raw, write_raw, write_summary}
use simulation_taps_tt.Bench.Program.{
  Suite, finished, one_run, run_repeats, run_scenarios, run_suite,
}
use simulation_taps_tt.Bench.Consistency.{
  IsConsistent, add_runs, new_summarizer-IsConsistent, add_run-IsConsistent,
}
use simulation_taps_tt.Bench.RawRows.{signer_line, combiner_line, tracer_line}
use simulation_taps_tt.Bench.RunLog.{
  Logged, logged, log_repeats, log_scenarios, successful, failed, raw_after, log_lines,
  failed-append, raw_after-append, successful-append, add_runs-append, raw_after-extended,
}
use simulation_taps_tt.Bench.Made.{summaries_of_consistent}
use simulation_taps_tt.Bench.Runs.{Processes}
use simulation_taps_tt.Bench.Waiting.{
  Exits, processes_of, run_succeeds, run_records, run_scenario_lem,
}

module _ (E : Type 0) (f : Floats) (fixed2 : f.Float → Text) where
  write_summary_total :
      (s : Summarizer)
      → IsConsistent s
      → (text : Text) × (write_summary f fixed2 {E = E} s ≡ ok text)
  unfolding write_summary
  write_summary_total s h =
      let (rows, e) = summaries_of_consistent f {E = E} s h in
      elim (Outcome-cases (write_summary f fixed2 {E = E} s)) [
        | inl done ↦ done
        | inr (inl (_, ended)) ↦ absurd (ground (arith, ended, e))
        | inr (inr (_, ended)) ↦ absurd (ground (arith, ended, e))
      ]

  -- The summary file is that of the statistics.
  pub record IsCurrent (s : Suite) : Type 0 where
    pub consistent : IsConsistent s.summarizer
    pub written : write_summary f fixed2 {E = E} s.summarizer ≡ ok s.summary

  -- The state behind the runs of a log.
  pub record Follows (log : List Logged) (s s' : Suite) : Type 0 where
    pub raw : s'.raw ≡ raw_after log s.raw
    pub summarizer : s'.summarizer ≡ add_runs (successful log) s.summarizer
    pub current : IsCurrent s'
    pub failures : s'.failures ≡ s.failures
    pub scenario_failures : s'.scenario_failures ≡ s.scenario_failures + failed log

  one_run-Follows :
      (e : Exits) (scenario : Scenario) (run : ℕ) (s : Suite)
      → IsCurrent s
      → (s' : Suite) × (one_run {E = E} f fixed2 (processes_of e) scenario run s ≡ ok s')
        × Follows (logged e scenario run ∷ []) s s'
  unfolding one_run
  one_run-Follows e scenario run s h =
      let reported = run_scenario_lem {E = E} e scenario.n scenario.n3 in
      let records = run_records e scenario.n scenario.n3 in
      elim (Bool-cases (run_succeeds e scenario.n scenario.n3)) [
        | inr lost ↦ (
          record s {
            raw = write_raw scenario.n scenario.n3 run records s.raw;
            scenario_failures = s.scenario_failures + 1;
          },
          rw (reported, lost),
          record {
            raw = refl;
            summarizer = rw lost;
            current = record { consistent = h.consistent; written = h.written };
            failures = refl;
            scenario_failures = rw lost;
          },
        )
        | inl won ↦
            let stats = add_run scenario.n scenario.n3 records s.summarizer in
            let consistent =
              add_run-IsConsistent scenario.n scenario.n3 records s.summarizer h.consistent in
            let (text, written) = write_summary_total stats consistent in
            (
              record s {
                raw = write_raw scenario.n scenario.n3 run records s.raw;
                summarizer = stats;
                summary = text;
              },
              rw (reported, won, written),
              record {
                raw = refl;
                summarizer = rw won;
                current = record { consistent = consistent; written = written };
                failures = refl;
                scenario_failures = rw won (omega arith);
              },
            )
      ]

  Follows-append :
      (xs ys : List Logged) (s s' s'' : Suite)
      → Follows xs s s'
      → Follows ys s' s''
      → Follows (xs ++ ys) s s''
  Follows-append xs ys s s' s'' g h = record {
    raw = h.raw ∙ ap (raw_after ys) g.raw ∙ sym (raw_after-append xs ys s.raw);
    summarizer =
        h.summarizer
        ∙ ap (add_runs (successful ys)) g.summarizer
        ∙ sym (add_runs-append (successful xs) (successful ys) s.summarizer)
        ∙ ap (λ runs. add_runs runs s.summarizer) (sym (successful-append xs ys));
    current = h.current;
    failures = h.failures ∙ g.failures;
    scenario_failures =
        omega (arith, h.scenario_failures, g.scenario_failures, failed-append xs ys);
  }

  Follows-none : (s : Suite) → IsCurrent s → Follows [] s s
  Follows-none s h = record {
    raw = refl;
    summarizer = refl;
    current = h;
    failures = refl;
    scenario_failures = omega arith;
  }

  run_repeats-Follows :
      (exits : ℕ → Exits) (scenario : Scenario) (left run : ℕ) (s : Suite)
      → IsCurrent s
      → (s' : Suite) × (run_repeats {E = E} f fixed2
            (λ k. processes_of (exits k))
            scenario
            left
            run
            s
          ≡ ok s')
        × Follows (log_repeats exits scenario left run) s s'
  unfolding run_repeats
  run_repeats-Follows exits scenario zero run s h = (s, refl, Follows-none s h)
  run_repeats-Follows exits scenario (suc left) run s h =
      let (s', e, g) = one_run-Follows (exits run) scenario run s h in
      let (s'', e', g') = run_repeats-Follows exits scenario left (suc run) s' g.current in
      (s'', rw e e', Follows-append _ _ s s' s'' g g')

  -- The failures of the scenarios so far are those of the log, and the statistics are current.
  run_scenarios-Follows :
      (exits : ℕ → ℕ → Exits) (i : ℕ) (scenarios : List Scenario) (s : Suite)
      → IsCurrent s
      → (s' : Suite) × (run_scenarios {E = E} f fixed2
            (λ j k. processes_of (exits j k))
            i
            scenarios
            s
          ≡ ok s')
        × (s'.raw ≡ raw_after (log_scenarios exits i scenarios) s.raw)
        × (s'.summarizer ≡ add_runs (successful (log_scenarios exits i scenarios)) s.summarizer)
        × IsCurrent s'
        × (s'.failures ≡ s.failures + failed (log_scenarios exits i scenarios))
  unfolding run_scenarios
  run_scenarios-Follows exits i [] s h = (s, refl, refl, refl, h, omega arith)
  run_scenarios-Follows exits i (scenario ∷ later) s h =
      let start : Suite = record s { scenario_failures = 0 } in
      let now = log_repeats (exits i) scenario scenario.repeats 1 in
      let rest = log_scenarios exits (suc i) later in
      let (s1, e1, g) =
        run_repeats-Follows (exits i) scenario scenario.repeats 1 start
          (record { consistent = h.consistent; written = h.written }) in
      let s2 : Suite = record s1 { failures = s1.failures + s1.scenario_failures } in
      let (s', e', raw, stats, current, failures) =
        run_scenarios-Follows exits (suc i) later s2
          (record { consistent = g.current.consistent; written = g.current.written }) in
      (
        s',
        rw e1 e',
        raw ∙ ap (raw_after rest) g.raw ∙ sym (raw_after-append now rest s.raw),
        stats
            ∙ ap (add_runs (successful rest)) g.summarizer
            ∙ sym (add_runs-append (successful now) (successful rest) s.summarizer)
            ∙ ap (λ runs. add_runs runs s.summarizer) (sym (successful-append now rest)),
        current,
        omega (arith, failures, g.failures, g.scenario_failures, failed-append now rest),
      )

run_suite_ends :
    (E : Type 0) (f : Floats) (fixed2 : f.Float → Text) (processes : ℕ → ℕ → Processes)
    (args : List Text) (scenarios : List Scenario) (text : Text) (s : Suite)
    → parse_args args ≡ ok scenarios
    → write_summary f fixed2 {E = E} new_summarizer ≡ ok text
    → run_scenarios {E = E} f fixed2 processes 0 scenarios (record {
      raw = create_raw;
      summary = text;
      summarizer = new_summarizer;
      failures = 0;
      scenario_failures = 0;
    })
      ≡ ok s
    → run_suite {E = E} f fixed2 true processes args
      ≡ ok (finished (if s.failures == 0 then 0 else 1) s.raw s.summary)
unfolding run_suite
run_suite_ends E f fixed2 processes args scenarios text s h written e =
    rw (h, run_suite) (rw (written, e))

-- If the arguments are scenarios, the program is built, and all processes start and can be waited
-- for, then the program finishes. Its raw files are their headers followed by the lines of every
-- run, failed ones included, each in the file of its actor's role and in order; its summary file is
-- that of the statistics of just the successful runs, in order; and it exits with 0 if no run
-- failed, else with 1.
pub run_suite_reports :
    (E : Type 0) (f : Floats) (fixed2 : f.Float → Text) (exits : ℕ → ℕ → Exits) (args : List Text)
    (scenarios : List Scenario)
    → parse_args args ≡ ok scenarios
    → let log = log_scenarios exits 0 scenarios in
      (summary : Text) × (run_suite {E = E} f fixed2 true (λ i run. processes_of (exits i run)) args
        ≡ ok (
            finished
              (if failed log == 0 then 0 else 1)
              (record {
                signers = create_raw.signers ++ log_lines signer_line log;
                combiner = create_raw.combiner ++ log_lines combiner_line log;
                tracers = create_raw.tracers ++ log_lines tracer_line log;
              })
              summary))
      × (write_summary f fixed2 {E = E} (add_runs (successful log) new_summarizer) ≡ ok summary)
run_suite_reports E f fixed2 exits args scenarios h =
    let log = log_scenarios exits 0 scenarios in
    let (text, written) =
      write_summary_total E f fixed2 new_summarizer new_summarizer-IsConsistent in
    let start : Suite = record {
      raw = create_raw;
      summary = text;
      summarizer = new_summarizer;
      failures = 0;
      scenario_failures = 0;
    } in
    let (s, e, raw, stats, current, failures) =
      run_scenarios-Follows E f fixed2 exits 0 scenarios start
        (record { consistent = new_summarizer-IsConsistent; written = written }) in
    let ends =
      run_suite_ends E f fixed2 (λ i run. processes_of (exits i run)) args scenarios text s h
        written e in
    let count : s.failures ≡ failed log = omega (arith, failures) in
    (
      s.summary,
      ends
          ∙ ap (λ code. ok (finished code s.raw s.summary))
              (ap (λ k. if k == 0 then 0 else 1) count)
          ∙ ap (λ files. ok (finished (if failed log == 0 then 0 else 1) files s.summary))
              (raw ∙ raw_after-extended log create_raw),
      subst (λ t. write_summary f fixed2 {E = E} t ≡ ok s.summary) stats current.written,
    )

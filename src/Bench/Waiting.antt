-- ===== src/Bench/Waiting.antt =====
-- What one run of the protocol reports, of `run_scenario` in src/bin/benchmark.rs.
use mathlib.Core.List.{append_assoc, append-nil}
use simulation_taps_tt.Base.{
  ℕ, zero, suc, ◌+◌, ◌≤◌, ◌<◌, ◌≡◌, ◌≢◌, refl, ◌∙◌, ◌↔◌, ◌⊎◌, inl, inr, subst, Bool, true, false,
  ◌&&◌, not, List, [], ◌++◌, some, String, arith,
}
use simulation_taps_tt.Base.Outcome.{ok}
use simulation_taps_tt.Bench.Lines.{Actor, combiner, signer, tracer, BenchRecord, collect_records}
use simulation_taps_tt.Bench.Runs.{
  Exit, Ending, exited, running, unknown, Processes, spawn_all, Collected, note_exit, wait_all,
  authority_failed, run_scenario,
}

-- How the processes of a run end, where all of them start.
pub record Exits : Type 0 where
  pub combiner_exit : Exit
  pub signer_exit : ℕ → Exit
  pub tracer_exit : ℕ → Exit
  pub authority_ending : Ending

abbrev pub processes_of : Exits → Processes
processes_of e = record {
  authority_starts = true;
  combiner_starts = true;
  tracer_starts = λ _. true;
  signer_starts = λ _. true;
  combiner_exit = some e.combiner_exit;
  signer_exit = λ i. some (e.signer_exit i);
  tracer_exit = λ k. some (e.tracer_exit k);
  authority_ending = e.authority_ending;
}

-- All of `left` processes succeed, from `id` on.
abbrev pub all_succeed : (ℕ → Exit) → ℕ → ℕ → Bool
all_succeed exits zero id = true
all_succeed exits (suc left) id = (exits id).success && all_succeed exits left (suc id)

-- The measurements in their outputs, in order.
abbrev pub all_records : (ℕ → Exit) → (ℕ → Actor) → ℕ → ℕ → List BenchRecord
all_records exits actor zero id = []
all_records exits actor (suc left) id =
    collect_records (actor id) (exits id).stdout ++ all_records exits actor left (suc id)

-- The Authority still runs, or has ended with success.
abbrev pub authority_is_fine : Ending → Bool
authority_is_fine (exited success) = success
authority_is_fine running = true
authority_is_fine unknown = true

abbrev pub run_succeeds : Exits → ℕ → ℕ → Bool
run_succeeds e n n3 =
    ((e.combiner_exit.success && all_succeed e.signer_exit n 0) && all_succeed e.tracer_exit n3 0)
    && authority_is_fine e.authority_ending

abbrev pub run_records : Exits → ℕ → ℕ → List BenchRecord
run_records e n n3 =
    (collect_records combiner e.combiner_exit.stdout ++ all_records e.signer_exit signer n 0)
    ++ all_records e.tracer_exit tracer n3 0

not-authority_failed : (a : Ending) → not (authority_failed a) ≡ authority_is_fine a
not-authority_failed (exited true) = refl
not-authority_failed (exited false) = refl
not-authority_failed running = refl
not-authority_failed unknown = refl

le_cases : (a b : ℕ) → a ≤ b → (a ≡ b) ⊎ (suc a ≤ b)
le_cases a b h = ground (arith, h)

and_true : (b : Bool) → (b && true) ≡ b
and_true true = refl
and_true false = refl

and_assoc : (a b c : Bool) → ((a && b) && c) ≡ (a && (b && c))
and_assoc true b c = refl
and_assoc false b c = refl

-- Every process from `id` up to `id + left` succeeds.
abbrev pub EachSucceeds : (ℕ → Exit) → ℕ → ℕ → Type 0
EachSucceeds exits left id = (i : ℕ) → id ≤ i → i < id + left → (exits i).success ≡ true

all_succeed→each :
    (exits : ℕ → Exit) (left id : ℕ) → all_succeed exits left id ≡ true → EachSucceeds exits left id
all_succeed→each exits zero id h i low high = absurd (omega (arith, low, high))
all_succeed→each exits (suc left) id h i low high = elim (le_cases id i low) [
  | inl e ↦ subst (λ k. (exits k).success ≡ true) e (ground (arith, h))
  | inr below ↦
      all_succeed→each exits left (suc id) (ground (arith, h)) i below (omega (arith, high))
]

each→all_succeed :
    (exits : ℕ → Exit) (left id : ℕ) → EachSucceeds exits left id → all_succeed exits left id ≡ true
each→all_succeed exits zero id h = refl
each→all_succeed exits (suc left) id h = rw (h id (omega arith) (omega arith)) (
    each→all_succeed exits left (suc id)
      (λ i low high. h i (omega (arith, low)) (omega (arith, high))))

module _ {E : Type 0} where
  spawn_all-true :
      (message : String) (left k : ℕ) → spawn_all {E = E} (λ _. true) message left k ≡ ok tt
  unfolding spawn_all
  spawn_all-true message zero k = refl
  spawn_all-true message (suc left) k = spawn_all-true message left (suc k)

  wait_all_lem :
      (exits : ℕ → Exit) (actor : ℕ → Actor) (message : String) (left id : ℕ) (c : Collected)
      → wait_all {E = E} (λ i. some (exits i)) actor message left id c
        ≡ ok (c.0 && all_succeed exits left id, c.1 ++ all_records exits actor left id)
  unfolding wait_all
  wait_all_lem exits actor message zero id c = cc (and_true c.0, append-nil c.1)
  wait_all_lem exits actor message (suc left) id c =
      wait_all_lem exits actor message left (suc id) (note_exit (actor id) (exits id) c)
      ∙ cc (
        and_assoc c.0 (exits id).success (all_succeed exits left (suc id)),
        append_assoc c.1 (collect_records (actor id) (exits id).stdout)
            (all_records exits actor left (suc id)),
      )

  pub run_scenario_lem :
      (e : Exits) (n n3 : ℕ)
      → run_scenario {E = E} (processes_of e) n n3 ≡ ok (run_succeeds e n n3, run_records e n n3)
  unfolding run_scenario
  run_scenario_lem e n n3 = rw (
    not-authority_failed e.authority_ending,
    spawn_all-true "Failed to start tracer" n3 0,
    spawn_all-true "Failed to start signer" n 0,
    wait_all_lem e.signer_exit signer "Failed to wait on signer" n 0
        (note_exit combiner e.combiner_exit (true, [])),
    wait_all_lem e.tracer_exit tracer "Tracer failed" n3 0 (
      e.combiner_exit.success && all_succeed e.signer_exit n 0,
      collect_records combiner e.combiner_exit.stdout ++ all_records e.signer_exit signer n 0,
    ),
  )

-- The run counts as a success.
abbrev pub Succeeds : Exits → ℕ → ℕ → Type 0
Succeeds e n n3 =
    (e.combiner_exit.success ≡ true)
    × EachSucceeds e.signer_exit n 0
    × EachSucceeds e.tracer_exit n3 0
    × (e.authority_ending ≢ exited false)

authority_is_fine_iff : (a : Ending) → (authority_is_fine a ≡ true) ↔ (a ≢ exited false)
authority_is_fine_iff (exited true) = (λ _ e. cc (e), λ _. refl)
authority_is_fine_iff (exited false) = (λ e. cc (e), λ h. absurd (h refl))
authority_is_fine_iff running = (λ _ e. cc (e), λ _. refl)
authority_is_fine_iff unknown = (λ _ e. cc (e), λ _. refl)

and_iff :
    (a b c d : Bool)
    → ((((a && b) && c) && d) ≡ true) ↔ ((a ≡ true) × (b ≡ true) × (c ≡ true) × (d ≡ true))
and_iff a b c d = ground arith

run_succeeds_iff : (e : Exits) (n n3 : ℕ) → (run_succeeds e n n3 ≡ true) ↔ Succeeds e n n3
run_succeeds_iff e n n3 =
    let (there, back) =
      and_iff e.combiner_exit.success (all_succeed e.signer_exit n 0)
        (all_succeed e.tracer_exit n3 0) (authority_is_fine e.authority_ending) in
    (
      λ h.
          let (c, s, t, a) = there h in
          (
            c,
            all_succeed→each e.signer_exit n 0 s,
            all_succeed→each e.tracer_exit n3 0 t,
            (authority_is_fine_iff e.authority_ending).0 a,
          ),
      λ h. back (
        h.0,
        each→all_succeed e.signer_exit n 0 h.1,
        each→all_succeed e.tracer_exit n3 0 h.2,
        (authority_is_fine_iff e.authority_ending).1 h.3,
      ),
    )

-- If all processes start and can be waited for, the run is reported as a success exactly if the
-- Combiner, each of the `n` signers and each of the `n3` tracers succeed, and the Authority has not
-- ended without success; and what is reported are the measurements that the Combiner, the signers
-- and the tracers printed, in this order.
pub run_scenario_reports :
    (E : Type 0) (e : Exits) (n n3 : ℕ)
    → (success : Bool) × (run_scenario {E = E} (processes_of e) n n3
        ≡ ok (success, run_records e n n3))
      × ((success ≡ true) ↔ Succeeds e n n3)
run_scenario_reports E e n n3 =
    (run_succeeds e n n3, run_scenario_lem e n n3, run_succeeds_iff e n n3)

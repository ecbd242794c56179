-- ===== src/Bench/Runs.antt =====
-- `run_scenario` of src/bin/benchmark.rs: one run of the protocol, over the processes that it starts.
use simulation_taps_tt.Base.{
  ℕ, zero, suc, Bool, true, false, ◌&&◌, not, Option, List, [], ◌++◌, String,
}
use simulation_taps_tt.Base.Outcome.{Outcome, ok, panic, expect, ◌>>=◌, ◌>>◌}
use simulation_taps_tt.Base.Numerals.{Text}
use simulation_taps_tt.Bench.Lines.{Actor, combiner, signer, tracer, BenchRecord, collect_records}

-- How a process ends: whether its status is success, and what it printed, decoded.
pub record Exit : Type 0 where
  pub success : Bool
  pub stdout : Text

-- What `try_wait` says of the Authority.
pub data Ending : Type 0 where
  exited : Bool → Ending
  running unknown : Ending

-- The processes of one run: whether each starts, and how it ends, `none` if waiting for it fails.
pub record Processes : Type 0 where
  pub authority_starts : Bool
  pub combiner_starts : Bool
  pub tracer_starts : ℕ → Bool
  pub signer_starts : ℕ → Bool
  pub combiner_exit : Option Exit
  pub signer_exit : ℕ → Option Exit
  pub tracer_exit : ℕ → Option Exit
  pub authority_ending : Ending

-- Whether every actor has succeeded so far, and the records so far.
abbrev pub Collected : Type 0
Collected = Bool × List BenchRecord

-- One process is waited for.
abbrev pub note_exit : Actor → Exit → Collected → Collected
note_exit actor e c = (c.0 && e.success, c.1 ++ collect_records actor e.stdout)

-- The Authority counts as failed only if it has ended without success.
abbrev pub authority_failed : Ending → Bool
authority_failed (exited success) = not success
authority_failed running = false
authority_failed unknown = false

module _ {E : Type 0} where
  -- `.expect(message)` on a process that is started.
  abbrev pub started : Bool → String → Outcome E (Unit {0})
  started true message = ok tt
  started false message = panic message

  -- `for k in from..`, with `left` processes to start.
  unfoldable pub spawn_all : (ℕ → Bool) → String → ℕ → ℕ → Outcome E (Unit {0})
  spawn_all starts message zero k = ok tt
  spawn_all starts message (suc left) k =
      started (starts k) message >> spawn_all starts message left (suc k)

  -- The loop over the handles, from `id` on.
  unfoldable pub wait_all :
      (ℕ → Option Exit) → (ℕ → Actor) → String → ℕ → ℕ → Collected → Outcome E Collected
  wait_all exits actor message zero id c = ok c
  wait_all exits actor message (suc left) id c = expect message (exits id) >>= λ e.
      wait_all exits actor message left (suc id) (note_exit (actor id) e c)

  unfoldable pub run_scenario : Processes → ℕ → ℕ → Outcome E Collected
  unfolding spawn_all wait_all
  run_scenario p n n3 = do
    started p.authority_starts "Failed to start Authority"
    started p.combiner_starts "Failed to start Combiner"
    spawn_all p.tracer_starts "Failed to start tracer" n3 0
    spawn_all p.signer_starts "Failed to start signer" n 0
    output_c ← expect "Combiner failed" p.combiner_exit
    with_signers ←
        wait_all p.signer_exit signer "Failed to wait on signer" n 0
          (note_exit combiner output_c (true, []))
    with_tracers ← wait_all p.tracer_exit tracer "Tracer failed" n3 0 with_signers
    ok (with_tracers.0 && not (authority_failed p.authority_ending), with_tracers.1)

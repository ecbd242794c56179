-- ===== src/Tracer/Run.antt =====
-- A whole run of src/bin/tracer.rs.
use simulation_taps_tt.Base.{ℕ, Option, List}
use simulation_taps_tt.Base.Outcome.{Outcome, ok, expect, ok_or}
use simulation_taps_tt.Base.Action.{Action, reads, lift, ◌>>=◌, ◌>>◌}
use simulation_taps_tt.Base.Action.Ensures.{Ensures}
use simulation_taps_tt.Network.{AuthorityAnchor, Message}
use simulation_taps_tt.Authority
use simulation_taps_tt.Mesh.{TracerMesh, establish}
use simulation_taps_tt.Mesh.Links.{IsEstablished}
use simulation_taps_tt.Dkg.{Dkg}
use simulation_taps_tt.Tracer.State.{Tracer}
use simulation_taps_tt.Tracer.Verified.{IsReport}
use simulation_taps_tt.Tracer.Program.{
  MainError, message, mesh, wrapped, Codecs, Draws, Surroundings, generate_key, report_key,
  receive_attestation, trace_quorum,
}
use simulation_taps_tt.Tracer.Session.{Configures, IsWorking}
use simulation_taps_tt.Tracer.Attested.{IsAccepted, Traces}

module _ (x : Dkg) (codecs : Codecs x) (draws : Draws x) where
  -- What a run has behind it that ends with a report and a quorum.
  pub record IsSession (around : Surroundings x) (index : ℕ) (anchor : AuthorityAnchor x.suite)
      (s0 : Tracer x) (report : Message x.suite) (quorum : List ℕ) (s : Tracer x) : Type 0 where
    pub config : Authority.TracerPackage x.taps
    pub configured : Configures x codecs draws around.credentials anchor s0 config
    pub links : TracerMesh
    pub established : IsEstablished x.suite index config.peer_tracers links
    pub accepted : IsAccepted x codecs draws around.attestation config s
    pub reported :
        IsReport x codecs draws config.combiner_keys s (x.share_pk accepted.keyed.share) report
    pub traced : Traces x codecs draws around.attestation config s accepted quorum

  module _ (around : Surroundings x) (w : IsWorking x codecs draws around) (index : ℕ)
      (anchor : AuthorityAnchor x.suite) (s0 : Tracer x) where
    abbrev Main : Type 0
    Main = Action (Tracer x) MainError (Message x.suite × List ℕ)

    abbrev Done : (Message x.suite × List ℕ) → Tracer x → Type 0
    Done result s = IsSession around index anchor s0 result.0 result.1 s

    abbrev unwrapped : {A : Type 0} → Option A → Outcome MainError A
    unwrapped = expect "called `Option::unwrap()` on a `None` value"

    -- The steps of `run` from the last one up, each with what follows it.
    abbrev printed : Message x.suite → List ℕ → Main
    printed report quorum = reads (λ s. unwrapped s.n) >>= λ _.
        reads (λ s. unwrapped s.t) >>= λ _. lift (ok (report, quorum))

    abbrev tracing_phase : TracerMesh → Message x.suite → Main
    tracing_phase links report = reads (trace_quorum x codecs draws around links) >>= printed report

    abbrev reporting : TracerMesh → Main
    reporting links = reads (report_key x codecs draws) >>= λ report.
        receive_attestation x codecs draws around.attestation >> tracing_phase links report

    abbrev keyed_phase : TracerMesh → Main
    keyed_phase links =
        generate_key x codecs draws around links
        >> (reads (λ s. unwrapped s.pk_e) >>= λ _. reporting links)

    abbrev meshing : Main
    meshing = reads (λ s. ok_or (message "Peer tracer roster not set") s.peer_tracers) >>= λ roster.
        lift
          (wrapped mesh (establish x.suite around.bind around.dialled around.inbound index roster))
        >>= keyed_phase

    abbrev configured_phase : Main
    configured_phase =
        reads (λ s. unwrapped s.n3) >>= λ _. reads (λ s. unwrapped s.te) >>= λ _. meshing

-- ===== src/Combiner/Accounts.antt =====
-- A run of src/bin/combiner.rs behind the connections: where everything on file comes from.
use simulation_taps_tt.Base.{ℕ, ◌≡◌, sym, subst, List, Bytes}
use simulation_taps_tt.Base.Outcome.{Outcome, ok, guard}
use simulation_taps_tt.Base.Action.{Action, reads, lift, ◌>>=◌, ◌>>◌}
use simulation_taps_tt.Base.Action.Keeps.{Keeps-bind, Keeps-lift}
use simulation_taps_tt.Crypto.{BroadcastPackage}
use simulation_taps_tt.Network.{Message, broadcast}
use simulation_taps_tt.Taps.{Taps}
use simulation_taps_tt.Payloads.{TracerPublicKeyPackage, CommitmentPackage, SigmaPackage}
use simulation_taps_tt.Combiner.State.{Combiner}
use simulation_taps_tt.Combiner.GroupKey.{tracer_public_keys_complete, finalize_group_key}
use simulation_taps_tt.Combiner.Node.{
  NodeError, message, try, Streams, Randomness, collect_public_keys, group_key_phase,
  collect_commitments, challenge_phase, collect_sigmas, attestation_phase,
}
use simulation_taps_tt.Combiner.Program.{Codecs, Times, Surroundings, send_streams}
use simulation_taps_tt.Combiner.Loops.{try-Keeps}
use simulation_taps_tt.Combiner.Provenance.{Round, Sourced, Sourced-trans, Filed, filed}
use simulation_taps_tt.Combiner.Rounds.{
  collect_commitments_authentic, collect_sigmas_authentic, collect_public_keys_authentic,
}
use simulation_taps_tt.Combiner.Frames.{finalize_group_key_keeps}
use simulation_taps_tt.Combiner.Phases.{challenge_phase_keeps, attestation_phase_keeps}

module _ (x : Taps) (codecs : Codecs x) (times : Times x) (around : Surroundings x) where
  -- The three rounds, on these streams, with the keys and rosters on file.
  abbrev pub report_round : Streams → Filed x → Round x (TracerPublicKeyPackage x)
  report_round st f = record {
    codec = codecs.report;
    now = times.reports;
    arrivals = around.reports;
    streams = st.tracers;
    roster = f.tracer_keys;
    own = f.own;
  }

  abbrev pub commitment_round : Streams → Filed x → Round x (CommitmentPackage x)
  commitment_round st f = record {
    codec = codecs.commitment;
    now = times.commitments;
    arrivals = around.commitments;
    streams = st.signers;
    roster = f.signer_keys;
    own = f.own;
  }

  abbrev pub share_round : Streams → Filed x → Round x (SigmaPackage x)
  share_round st f = record {
    codec = codecs.share;
    now = times.shares;
    arrivals = around.shares;
    streams = st.signers;
    roster = f.signer_keys;
    own = f.own;
  }

  -- The keys and rosters are the same, and every entry that is new is from its sender.
  pub record IsAccounted (st : Streams) (before after : Filed x) : Type 0 where
    pub own : after.own ≡ before.own
    pub signer_keys : after.signer_keys ≡ before.signer_keys
    pub tracer_keys : after.tracer_keys ≡ before.tracer_keys
    pub reports : Sourced x (report_round st before) (λ p. p.pk) before.tracer_pks after.tracer_pks
    pub commitments :
        Sourced x
          (commitment_round st before)
          (λ p. p.commitment)
          before.commitments
          after.commitments
    pub shares : Sourced x (share_round st before) (λ p. p.z) before.sigmas after.sigmas

  module _ (st : Streams) (random : Randomness x) (text : Bytes) (n : ℕ) where
    abbrev Main : Type 0
    Main = Action (Combiner x) NodeError (List (ℕ × Message x.suite) × List (ℕ × Message x.suite))

    -- The steps of `run` behind the connections, from the last one up, each with what follows it.
    abbrev attesting : List (ℕ × Message x.suite) → (x.Sigma × BroadcastPackage x.suite) → Main
    attesting challenged result =
        lift (send_streams around.attestation_reaches (broadcast result.1) st.tracers)
        >>= λ attested. lift (ok (challenged, attested))

    abbrev sharing : List (ℕ × Message x.suite) → Main
    sharing challenged =
        collect_sigmas x codecs.share times.shares around.shares st.signers
        >> (try (attestation_phase x codecs.attestation random text n times.attestation)
            >>= attesting challenged)

    abbrev challenging : Main
    challenging =
        try (challenge_phase x codecs.challenge random text times.challenge) >>= λ challenge.
        lift (send_streams around.challenge_reaches (broadcast challenge) st.signers) >>= sharing

    abbrev pub signing : Main
    signing =
        group_key_phase x codecs.report times.reports around.reports st.tracers
        >> (collect_commitments x codecs.commitment times.commitments around.commitments st.signers
            >> challenging)

  module _ (st : Streams) (f : Filed x) where
    abbrev Kept : Combiner x → Type 0
    Kept s = IsAccounted st f (filed x s)

    collect_public_keys-Kept :
        (s : Combiner x)
        → Kept s
        → Kept (collect_public_keys x codecs.report times.reports around.reports st.tracers s).1
    collect_public_keys-Kept s a =
        let (same, sourced) =
          collect_public_keys_authentic x (report_round st f) s a.tracer_keys a.own in
        subst (IsAccounted st f) (sym same) (record {
          own = a.own;
          signer_keys = a.signer_keys;
          tracer_keys = a.tracer_keys;
          reports =
              Sourced-trans x (report_round st f) (λ p. p.pk) f.tracer_pks s.tracer_pks _ a.reports
                sourced;
          commitments = a.commitments;
          shares = a.shares;
        })

    collect_commitments-Kept :
        (s : Combiner x)
        → Kept s
        → Kept
            (collect_commitments x codecs.commitment times.commitments around.commitments st.signers
              s).1
    collect_commitments-Kept s a =
        let (same, sourced) =
          collect_commitments_authentic x (commitment_round st f) s a.signer_keys a.own in
        subst (IsAccounted st f) (sym same) (record {
          own = a.own;
          signer_keys = a.signer_keys;
          tracer_keys = a.tracer_keys;
          reports = a.reports;
          commitments =
              Sourced-trans x (commitment_round st f) (λ p. p.commitment) f.commitments
                s.commitments _ a.commitments sourced;
          shares = a.shares;
        })

    collect_sigmas-Kept :
        (s : Combiner x)
        → Kept s
        → Kept (collect_sigmas x codecs.share times.shares around.shares st.signers s).1
    collect_sigmas-Kept s a =
        let (same, sourced) = collect_sigmas_authentic x (share_round st f) s a.signer_keys a.own in
        subst (IsAccounted st f) (sym same) (record {
          own = a.own;
          signer_keys = a.signer_keys;
          tracer_keys = a.tracer_keys;
          reports = a.reports;
          commitments = a.commitments;
          shares =
              Sourced-trans x (share_round st f) (λ p. p.z) f.sigmas s.sigmas _ a.shares sourced;
        })

    group_key_phase-Kept :
        (s : Combiner x)
        → Kept s
        → Kept (group_key_phase x codecs.report times.reports around.reports st.tracers s).1
    unfolding group_key_phase
    group_key_phase-Kept s a =
        Keeps-bind Kept Kept
          (collect_public_keys x codecs.report times.reports around.reports st.tracers)
          (λ _. reads complete >> try (finalize_group_key x)) s (λ _ a'. a')
          (collect_public_keys-Kept s a)
          λ _ s1 a1.
            Keeps-bind Kept Kept (reads complete) (λ _. try (finalize_group_key x)) s1 (λ _ a'. a')
              a1
              λ _ s2 a2.
                try-Keeps Kept (finalize_group_key x) s2
                  (subst (IsAccounted st f) (sym (finalize_group_key_keeps x s2)) a2)
      where
        complete : Combiner x → Outcome NodeError (Unit {0})
        complete s' =
            guard (tracer_public_keys_complete x s')
              (message "Did not receive pk_k from every tracer")

    module _ (random : Randomness x) (text : Bytes) (n : ℕ) where
      sharing-Kept :
          (challenged : List (ℕ × Message x.suite)) (s : Combiner x)
          → Kept s
          → Kept (sharing st random text n challenged s).1
      sharing-Kept challenged s a =
          Keeps-bind Kept Kept (collect_sigmas x codecs.share times.shares around.shares st.signers)
            (λ _.
              try (attestation_phase x codecs.attestation random text n times.attestation)
              >>= attesting st random text n challenged)
            s (λ _ a'. a') (collect_sigmas-Kept s a)
            λ _ s1 a1.
              Keeps-bind Kept Kept
                (try (attestation_phase x codecs.attestation random text n times.attestation))
                (attesting st random text n challenged) s1 (λ _ a'. a')
                (try-Keeps Kept
                  (attestation_phase x codecs.attestation random text n times.attestation) s1
                  (attestation_phase_keeps x (IsAccounted st f) random text times.attestation
                    codecs.attestation n s1 a1))
                λ result s2 a2.
                  Keeps-lift Kept
                    (send_streams around.attestation_reaches (broadcast result.1) st.tracers)
                    (λ attested. lift (ok (challenged, attested))) s2 a2 (λ _ _. a2)

      pub signing-Kept : (s : Combiner x) → Kept s → Kept (signing st random text n s).1
      signing-Kept s a =
          Keeps-bind Kept Kept
            (group_key_phase x codecs.report times.reports around.reports st.tracers)
            (λ _.
              collect_commitments x codecs.commitment times.commitments around.commitments
                st.signers
              >> challenging st random text n)
            s (λ _ a'. a') (group_key_phase-Kept s a)
            λ _ s1 a1.
              Keeps-bind Kept Kept
                (collect_commitments x codecs.commitment times.commitments around.commitments
                  st.signers)
                (λ _. challenging st random text n) s1 (λ _ a'. a') (collect_commitments-Kept s1 a1)
                λ _ s2 a2.
                  Keeps-bind Kept Kept
                    (try (challenge_phase x codecs.challenge random text times.challenge))
                    (λ challenge.
                      lift (send_streams around.challenge_reaches (broadcast challenge) st.signers)
                      >>= sharing st random text n)
                    s2 (λ _ a'. a')
                    (try-Keeps Kept (challenge_phase x codecs.challenge random text times.challenge)
                      s2
                      (challenge_phase_keeps x (IsAccounted st f) random text times.challenge
                        codecs.challenge s2 a2))
                    λ challenge s3 a3.
                      Keeps-lift Kept
                        (send_streams around.challenge_reaches (broadcast challenge) st.signers)
                        (sharing st random text n) s3 a3
                        (λ challenged _. sharing-Kept challenged s3 a3)

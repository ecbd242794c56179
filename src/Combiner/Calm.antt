-- ===== src/Combiner/Calm.antt =====
-- The steps of src/bin/combiner.rs behind the connections do not panic.
use simulation_taps_tt.Base.{
  ℕ, ◌≡◌, sym, subst, Option, none, some, List, [], ◌∷◌, Bytes, Bool, inl, inr, arith,
}
use simulation_taps_tt.Base.Outcome.{Outcome, ok, err, panic, guard}
use simulation_taps_tt.Base.Action.{Action, reads, lift, ◌>>=◌, ◌>>◌}
use simulation_taps_tt.Base.Action.Ensures.{Ends, Ensures, Ensures-bind, Ensures-reads}
use simulation_taps_tt.Crypto.{Suite, BroadcastPackage, Error}
use simulation_taps_tt.Crypto.NoPanic.{NeverPanics, NeverPanics-cases, NeverPanics-guard, IsTotal}
use simulation_taps_tt.Network.{Message, broadcast}
use simulation_taps_tt.Taps.{Taps, HasSmallScalars}
use simulation_taps_tt.Combiner.State.{Combiner}
use simulation_taps_tt.Combiner.GroupKey.{tracer_public_keys_complete, finalize_group_key}
use simulation_taps_tt.Combiner.Node.{
  NodeError, message, try, Streams, Randomness, take_public_key, take_commitment, take_sigma,
  collect_public_keys, group_key_phase, collect_commitments, challenge_phase, collect_sigmas,
  attestation_phase,
}
use simulation_taps_tt.Combiner.Program.{Codecs, Times, Surroundings, send_streams}
use simulation_taps_tt.Combiner.Steady.{
  Parameters, parameters, Steady, for_streams-Steady, take_commitment-Steady, take_sigma-Steady,
  take_public_key-Steady,
}
use simulation_taps_tt.Combiner.NoPanic.{
  IsConfigured, IsKeyed, IsChallenging, IsQuiet, finalize_group_key-Ensures,
  challenge_phase-Ensures, attestation_phase-NeverPanics,
}

pub try-Ensures :
    {S A : Type 0} (Q : A → S → Type 0) (m : Action S Error A) (s : S)
    → Ensures Q m s
    → Ensures Q (try m) s
try-Ensures {S} {A} Q m s h = kept (m s).0 (m s).1 h
  where
    kept : (r : Outcome Error A) (s' : S) → Ends Q r s' → Ensures Q (try (λ (_ : S). (r, s'))) s
    kept (ok a) s' q = q
    kept (err e) s' q = tt
    kept (panic p) s' q = absurd q

Ends-NeverPanics :
    {S E A : Type 0} (r : Outcome E A) (s : S) → NeverPanics r → Ends (λ _ _. Unit {0}) r s
Ends-NeverPanics (ok a) s h = tt
Ends-NeverPanics (err e) s h = tt
Ends-NeverPanics (panic p) s h = h

send_streams-NeverPanics :
    {c : Suite} (reaches : ℕ → Bool) (msg : Message c) (streams : List (Option ℕ))
    → NeverPanics (send_streams reaches msg streams)
unfolding send_streams
send_streams-NeverPanics reaches msg [] = tt
send_streams-NeverPanics reaches msg (none ∷ later) = send_streams-NeverPanics reaches msg later
send_streams-NeverPanics reaches msg (some socket ∷ later) =
    elim (NeverPanics-cases (send_streams reaches msg later)
      (send_streams-NeverPanics reaches msg later)) [
        | inl (rest, e) ↦ ground (arith, e)
        | inr (f, e) ↦ ground (arith, e)
      ]

module _ (x : Taps) (codecs : Codecs x) (random : Randomness x) (times : Times x)
    (around : Surroundings x) (text : Bytes) (total_challenge : IsTotal codecs.challenge)
    (total_attestation : IsTotal codecs.attestation) (quiet : IsQuiet x)
    (small : HasSmallScalars x) where
  -- A steady call, for a condition on the parameters.
  Steady-Ensures :
      {E A : Type 0} (P : Parameters x → Type 0) (m : Action (Combiner x) E A) (s : Combiner x)
      → Steady x m s
      → P (parameters s)
      → Ensures (λ _ s'. P (parameters s')) m s
  Steady-Ensures {E} {A} P m s h p = kept (m s).0 (m s).1 h
    where
      kept :
          (r : Outcome E A) (s' : Combiner x)
          → Ends (λ _ s''. parameters s'' ≡ parameters s) r s'
          → Ends (λ _ s''. P (parameters s'')) r s'
      kept (ok a) s' e = subst P (sym e) p
      kept (err f) s' e = tt
      kept (panic q) s' e = absurd e

  module _ (st : Streams) (n : ℕ) where
    abbrev Main : Type 0
    Main = Action (Combiner x) NodeError (List (ℕ × Message x.suite) × List (ℕ × Message x.suite))

    abbrev Calm : Main → Combiner x → Type 0
    Calm m s = Ensures (λ _ _. Unit {0}) m s

    -- The steps of `run` behind the connections, from the last one up, each with what follows it.
    abbrev attesting : List (ℕ × Message x.suite) → (x.Sigma × BroadcastPackage x.suite) → Main
    attesting challenged result =
        lift (send_streams around.attestation_reaches (broadcast result.1) st.tracers)
        >>= λ attested. lift (ok (challenged, attested))

    abbrev finishing : List (ℕ × Message x.suite) → Main
    finishing challenged =
        try (attestation_phase x codecs.attestation random text n times.attestation)
        >>= attesting challenged

    abbrev sharing : List (ℕ × Message x.suite) → Main
    sharing challenged =
        collect_sigmas x codecs.share times.shares around.shares st.signers >> finishing challenged

    abbrev challenging : Main
    challenging =
        try (challenge_phase x codecs.challenge random text times.challenge) >>= λ challenge.
        lift (send_streams around.challenge_reaches (broadcast challenge) st.signers) >>= sharing

    abbrev committing : Main
    committing =
        collect_commitments x codecs.commitment times.commitments around.commitments st.signers
        >> challenging

    -- What the last phase needs.
    abbrev Prepared : Parameters x → Type 0
    Prepared f = IsChallenging x f × (f.w_psi ≡ some random.psi) × (f.message ≡ some text)

    finishing-Calm :
        (challenged : List (ℕ × Message x.suite)) (s : Combiner x)
        → Prepared (parameters s)
        → Calm (finishing challenged) s
    finishing-Calm challenged s (h, known_psi, known_m) =
        let phase = attestation_phase x codecs.attestation random text n times.attestation in
        Ensures-bind (λ _ _. Unit {0}) (λ _ _. Unit {0}) (try phase) (attesting challenged) s
          (try-Ensures (λ _ _. Unit {0}) phase s
            (Ends-NeverPanics (phase s).0 (phase s).1 (
              attestation_phase-NeverPanics x random text times.attestation codecs.attestation n s
                total_attestation h known_psi known_m)))
          λ result s' _.
            Ensures-reads (λ _. Unit {0}) (λ _ _. Unit {0})
              (λ _. send_streams around.attestation_reaches (broadcast result.1) st.tracers)
              (λ attested. lift (ok (challenged, attested))) s'
              (send_streams-NeverPanics around.attestation_reaches (broadcast result.1) st.tracers)
              (λ _ _. tt)

    sharing-Calm :
        (challenged : List (ℕ × Message x.suite)) (s : Combiner x)
        → Prepared (parameters s)
        → Calm (sharing challenged) s
    unfolding collect_sigmas
    sharing-Calm challenged s h =
        let loop = collect_sigmas x codecs.share times.shares around.shares st.signers in
        Ensures-bind (λ _ s'. Prepared (parameters s')) (λ _ _. Unit {0}) loop
          (λ _. finishing challenged) s
          (Steady-Ensures Prepared loop s
            (for_streams-Steady x
              (λ id socket. take_sigma x codecs.share (times.shares id) id (around.shares socket))
              (λ id socket s'.
                take_sigma-Steady x codecs.share (times.shares id) id (around.shares socket) s')
              0 st.signers s)
            h)
          λ _ s' h'. finishing-Calm challenged s' h'

    challenging-Calm : (s : Combiner x) → IsKeyed x (parameters s) → Calm challenging s
    challenging-Calm s k =
        let phase = challenge_phase x codecs.challenge random text times.challenge in
        Ensures-bind (λ _ s'. Prepared (parameters s')) (λ _ _. Unit {0}) (try phase)
          (λ challenge.
            lift (send_streams around.challenge_reaches (broadcast challenge) st.signers)
            >>= sharing)
          s
          (try-Ensures (λ _ s'. Prepared (parameters s')) phase s
            (challenge_phase-Ensures x random text times.challenge codecs.challenge s
              total_challenge quiet small k))
          λ challenge s' h.
            Ensures-reads (λ _. Unit {0}) (λ _ _. Unit {0})
              (λ _. send_streams around.challenge_reaches (broadcast challenge) st.signers) sharing
              s'
              (send_streams-NeverPanics around.challenge_reaches (broadcast challenge) st.signers)
              λ challenged _. sharing-Calm challenged s' h

    committing-Calm : (s : Combiner x) → IsKeyed x (parameters s) → Calm committing s
    unfolding collect_commitments
    committing-Calm s k =
        let loop =
          collect_commitments x codecs.commitment times.commitments around.commitments st.signers in
        Ensures-bind (λ _ s'. IsKeyed x (parameters s')) (λ _ _. Unit {0}) loop (λ _. challenging) s
          (Steady-Ensures (IsKeyed x) loop s
            (for_streams-Steady x
              (λ id socket.
                take_commitment x codecs.commitment (times.commitments id) id
                  (around.commitments socket))
              (λ id socket s'.
                take_commitment-Steady x codecs.commitment (times.commitments id) id
                  (around.commitments socket) s')
              0 st.signers s)
            k)
          λ _ s' k'. challenging-Calm s' k'

    group_key_phase-Ensures :
        (s : Combiner x)
        → IsConfigured x (parameters s)
        → Ensures
            (λ _ s'. IsKeyed x (parameters s'))
            (group_key_phase x codecs.report times.reports around.reports st.tracers)
            s
    unfolding group_key_phase collect_public_keys
    group_key_phase-Ensures s v =
        let loop = collect_public_keys x codecs.report times.reports around.reports st.tracers in
        let Q = λ (_ : Unit {0}) (s' : Combiner x). IsKeyed x (parameters s') in
        Ensures-bind (λ _ s'. IsConfigured x (parameters s')) Q loop
          (λ _.
            reads (λ q.
              guard (tracer_public_keys_complete x q)
                (message "Did not receive pk_k from every tracer"))
            >> try (finalize_group_key x))
          s
          (Steady-Ensures (IsConfigured x) loop s
            (for_streams-Steady x
              (λ id socket.
                take_public_key x codecs.report (times.reports id) id (around.reports socket))
              (λ id socket s'.
                take_public_key-Steady x codecs.report (times.reports id) id (around.reports socket)
                  s')
              0 st.tracers s)
            v)
          λ _ s' v'.
            Ensures-reads (λ _. Unit {0}) Q
              (λ q.
                guard (tracer_public_keys_complete x q)
                  (message "Did not receive pk_k from every tracer"))
              (λ _. try (finalize_group_key x)) s'
              (NeverPanics-guard (tracer_public_keys_complete x s')
                (message "Did not receive pk_k from every tracer"))
              λ _ _. try-Ensures Q (finalize_group_key x) s' (finalize_group_key-Ensures x s' v')

    abbrev pub signing : Main
    signing = group_key_phase x codecs.report times.reports around.reports st.tracers >> committing

    pub signing-Calm : (s : Combiner x) → IsConfigured x (parameters s) → Calm signing s
    signing-Calm s v =
        Ensures-bind (λ _ s'. IsKeyed x (parameters s')) (λ _ _. Unit {0})
          (group_key_phase x codecs.report times.reports around.reports st.tracers)
          (λ _. committing) s (group_key_phase-Ensures s v) λ _ s' k. committing-Calm s' k

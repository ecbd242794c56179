-- ===== src/Combiner/RunNoPanic.antt =====
-- No run of src/bin/combiner.rs panics.
use simulation_taps_tt.Base.{
  ℕ, ◌≡◌, refl, Option, none, some, List, Bytes, length, ◌==◌, inl, inr, Bool-cases, arith,
}
use simulation_taps_tt.Base.Outcome.{Outcome, ok, err, panic, expect, Safe-map}
use simulation_taps_tt.Base.Action.{Action, reads, lift, ◌>>=◌, ◌>>◌}
use simulation_taps_tt.Base.Action.Ensures.{
  Ends, Ensures, ensured_at_end, Ensures-bind, Ensures-reads,
}
use simulation_taps_tt.Crypto.{SecurePackage, ActorKeys, invalid_message, open_secure}
use simulation_taps_tt.Crypto.NoPanic.{
  NeverPanics, NeverPanics-cases, NeverPanics-expect, IsTotal, open_secure-NeverPanics,
}
use simulation_taps_tt.Network.{AuthorityAnchor, Message, hello, secure, broadcast, bind_with_retry}
use simulation_taps_tt.Network.Retry.{bind_with_retry_returns}
use simulation_taps_tt.Taps.{Taps, HasSmallScalars}
use simulation_taps_tt.Combiner.State.{Combiner}
use simulation_taps_tt.Combiner.Intake.{load_from_authority}
use simulation_taps_tt.Combiner.Node.{NodeError, no_streams, accept_all, Randomness}
use simulation_taps_tt.Combiner.Program.{Codecs, Times, Surroundings, listening, bootstrap, run}
use simulation_taps_tt.Combiner.Connections.{accept_all_complete}
use simulation_taps_tt.Combiner.Steady.{parameters}
use simulation_taps_tt.Combiner.NoPanic.{IsConfigured, IsQuiet}
use simulation_taps_tt.Combiner.Calm.{try-Ensures, signing, signing-Calm}

NeverPanics-Ends :
    {S E A : Type 0} (r : Outcome E A) (s : S) → Ends (λ _ _. Unit {0}) r s → NeverPanics r
NeverPanics-Ends (ok a) s h = tt
NeverPanics-Ends (err e) s h = tt
NeverPanics-Ends (panic p) s h = h

module _ (x : Taps) (codecs : Codecs x) (random : Randomness x) (times : Times x)
    (around : Surroundings x) (text : Bytes) (total_challenge : IsTotal codecs.challenge)
    (total_attestation : IsTotal codecs.attestation) (quiet : IsQuiet x)
    (small : HasSmallScalars x) where
  -- What the bootstrap leaves behind it.
  abbrev Ready : Combiner x → Type 0
  Ready s = IsConfigured x (parameters s) × ((n3 : ℕ) × (s.n3 ≡ some n3))

  module _ (anchor : AuthorityAnchor x.suite) where
    abbrev pinned : ActorKeys x.suite
    pinned = record { identity_pk = anchor.identity_pk; transport_pk = anchor.transport_pk }

    load_from_authority-Ensures :
        (p : SecurePackage x.suite) (now : ℕ) (s : Combiner x)
        → Ensures (λ _ s'. Ready s') (load_from_authority x codecs.config p anchor now) s
    unfolding load_from_authority
    load_from_authority-Ensures p now s =
        let phase = load_from_authority x codecs.config p anchor now in
        let Q = λ (_ : Unit {0}) (s' : Combiner x). Ready s' in
        elim (NeverPanics-cases (open_secure x.suite codecs.config s.transport_kp pinned p now)
          (open_secure-NeverPanics x.suite codecs.config s.transport_kp pinned p now)) [
            | inr (failed, e) ↦
                let ends : phase s ≡ (err failed, s) = ground (arith, e) in
                ensured_at_end Q phase s ends tt
            | inl (config, e) ↦ elim (Bool-cases (length config.signer_keys == config.n)) [
              | inr short ↦
                  let ends : phase s ≡ (err invalid_message, s) = ground (arith, e, short) in
                  ensured_at_end Q phase s ends tt
              | inl full ↦ elim (Bool-cases (length config.tracer_keys == config.n3)) [
                | inr short ↦
                    let ends : phase s ≡ (err invalid_message, s) =
                      ground (arith, e, full, short) in
                    ensured_at_end Q phase s ends tt
                | inl all ↦
                    let ends : phase s ≡ (
                      ok tt,
                      record s {
                        signer_keys = some config.signer_keys;
                        tracer_keys = some config.tracer_keys;
                        pk_i = some config.pk_i;
                        quorum = some config.quo;
                        n = some config.n;
                        t = some config.t;
                        n3 = some config.n3;
                        te = some config.te;
                        taps_kp = some config.kp_cs;
                      },
                    ) =
                      ground (arith, e, full, all) in
                    ensured_at_end Q phase s ends (
                      record {
                        quorum = config.quo;
                        n = config.n;
                        t = config.t;
                        pk_i = config.pk_i;
                        taps_kp = config.kp_cs;
                        known_quorum = refl;
                        known_n = refl;
                        known_t = refl;
                        known_pk_i = refl;
                        known_taps_kp = refl;
                      },
                      (config.n3, refl),
                    )
              ]
            ]
          ]

    bootstrap-Ensures :
        (m : Option (Message x.suite)) (s : Combiner x)
        → Ensures (λ _ s'. Ready s') (bootstrap x codecs.config m anchor times.config) s
    unfolding bootstrap
    bootstrap-Ensures none s = tt
    bootstrap-Ensures (some (hello _ _ _ _)) s = tt
    bootstrap-Ensures (some (broadcast _)) s = tt
    bootstrap-Ensures (some (secure p)) s =
        try-Ensures (λ _ s'. Ready s') (load_from_authority x codecs.config p anchor times.config) s
          (load_from_authority-Ensures p times.config s)

    listening-NeverPanics : NeverPanics (listening (bind_with_retry around.bind).0)
    listening-NeverPanics = elim (bind_with_retry_returns around.bind) [
      | inl (l, e) ↦ ground (arith, e)
      | inr (f, e) ↦ ground (arith, e)
    ]

    abbrev unwrapped : {A : Type 0} → Option A → Outcome NodeError A
    unwrapped = expect "called `Option::unwrap()` on a `None` value"

    abbrev accepting :
        ℕ
        → ℕ
        → Action (Combiner x) NodeError (List (ℕ × Message x.suite) × List (ℕ × Message x.suite))
    accepting n n3 = lift (accept_all n n3 around.conns (no_streams n n3)) >>= λ st.
        signing x codecs random times around text total_challenge total_attestation quiet small st n

    abbrev serving :
        ℕ
        → ℕ
        → Action (Combiner x) NodeError (List (ℕ × Message x.suite) × List (ℕ × Message x.suite))
    serving n n3 = lift (listening (bind_with_retry around.bind).0) >> accepting n n3

    abbrev counting :
        Action (Combiner x) NodeError (List (ℕ × Message x.suite) × List (ℕ × Message x.suite))
    counting =
        reads (λ s. unwrapped s.n) >>= λ n. reads (λ s. unwrapped s.n3) >>= λ n3. serving n n3

    counting-Calm : (s : Combiner x) → Ready s → Ensures (λ _ _. Unit {0}) counting s
    counting-Calm s (v, (known, known_n3)) =
        let U = λ (_ : List (ℕ × Message x.suite) × List (ℕ × Message x.suite)) (_ : Combiner x).
          Unit {0} in
        Ensures-reads (λ _. Unit {0}) U (λ s'. unwrapped s'.n)
          (λ n. reads (λ s'. unwrapped s'.n3) >>= λ n3. serving n n3) s
          (NeverPanics-expect NodeError _ s.n v.n v.known_n)
          λ n _.
            Ensures-reads (λ _. Unit {0}) U (λ s'. unwrapped s'.n3) (λ n3. serving n n3) s
              (NeverPanics-expect NodeError _ s.n3 known known_n3)
              λ n3 _.
                Ensures-reads (λ _. Unit {0}) U (λ _. listening (bind_with_retry around.bind).0)
                  (λ _. accepting n n3) s listening-NeverPanics
                  λ _ _.
                    Ensures-reads (λ _. Unit {0}) U
                      (λ _. accept_all n n3 around.conns (no_streams n n3))
                      (λ st.
                        signing x codecs random times around text total_challenge total_attestation
                          quiet small st n)
                      s
                      (Safe-map _ (λ _. Unit {0}) (accept_all n n3 around.conns (no_streams n n3))
                        (λ _ _. tt) (accept_all_complete n n3 around.conns))
                      λ st _.
                        signing-Calm x codecs random times around text total_challenge
                          total_attestation quiet small st n s v

    -- Whatever the network delivers, from whatever state, a run of the Combiner does not panic: no
    -- `unwrap` or `expect` of it fails. It is assumed that challenges and attestations serialise,
    -- that the crate's `aggregate_commitments` does not panic, and that it reads small numbers as
    -- scalars.
    pub run-NeverPanics :
        (s0 : Combiner x) → NeverPanics (run x codecs random times around anchor text s0).0
    unfolding run
    run-NeverPanics s0 =
        NeverPanics-Ends (run x codecs random times around anchor text s0).0
          (run x codecs random times around anchor text s0).1
          (Ensures-bind (λ _ s. Ready s) (λ _ _. Unit {0})
            (bootstrap x codecs.config around.credentials anchor times.config) (λ _. counting) s0
            (bootstrap-Ensures around.credentials s0) λ _ s r. counting-Calm s r)

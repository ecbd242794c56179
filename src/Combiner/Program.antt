-- ===== src/Combiner/Program.antt =====
-- `main` of src/bin/combiner.rs, from its keys to the attestation that it sends.
use simulation_taps_tt.Base.{ℕ, Bool, Option, none, some, List, [], ◌∷◌, Bytes}
use simulation_taps_tt.Base.Outcome
use simulation_taps_tt.Base.Outcome.{Outcome, ok, err, panic, expect, ok_or, guard}
use simulation_taps_tt.Base.Action.{Action, reads, lift, ◌>>=◌, ◌>>◌}
use simulation_taps_tt.Crypto.{Suite, Codec}
use simulation_taps_tt.Network.{
  NetError, AuthorityAnchor, combiner, Message, hello, secure, broadcast, Attempt, bind_with_retry,
}
use simulation_taps_tt.Authority.{Connection, CombinerPackage}
use simulation_taps_tt.Taps.{Taps}
use simulation_taps_tt.Payloads.{
  SignerPackage, TracerPackage, TracerPublicKeyPackage, CommitmentPackage, SigmaPackage,
}
use simulation_taps_tt.Combiner.State.{Combiner}
use simulation_taps_tt.Combiner.Intake.{load_from_authority}
use simulation_taps_tt.Combiner.Node.{
  NodeError, receive_failed, send_failed, link, message, try, no_streams, accept_all, Randomness,
  Arrivals, group_key_phase, collect_commitments, challenge_phase, collect_sigmas,
  attestation_phase,
}

-- The loop that sends a message on every stream: what was written, in order. `reaches` tells
-- whether sending on a connection succeeds.
unfoldable pub send_streams :
    {c : Suite}
    → (ℕ → Bool)
    → Message c
    → List (Option ℕ)
    → Outcome NodeError (List (ℕ × Message c))
send_streams reaches msg [] = ok []
send_streams reaches msg (none ∷ later) = send_streams reaches msg later
send_streams reaches msg (some socket ∷ later) =
    Outcome.◌>>◌ (guard (reaches socket) send_failed)
      (Outcome.◌>>=◌ (send_streams reaches msg later) λ rest. ok ((socket, msg) ∷ rest))

-- `.await?` on the listener
abbrev pub listening : {L : Type 0} → Outcome NetError L → Outcome NodeError (Unit {0})
listening (ok _) = ok tt
listening (err e) = err (link e)
listening (panic p) = panic p

module _ (x : Taps) where
  -- The codecs of the payloads.
  pub record Codecs : Type 0 where
    pub config : Codec (CombinerPackage x)
    pub report : Codec (TracerPublicKeyPackage x)
    pub commitment : Codec (CommitmentPackage x)
    pub challenge : Codec (SignerPackage x)
    pub share : Codec (SigmaPackage x)
    pub attestation : Codec (TracerPackage x)

  -- The clock, when the package of an actor is handled and when a package is made.
  pub record Times : Type 0 where
    pub config : ℕ
    pub reports : ℕ → ℕ
    pub commitments : ℕ → ℕ
    pub challenge : ℕ
    pub shares : ℕ → ℕ
    pub attestation : ℕ

  -- What the network does: the Authority's message, the attempts to bind, the connections that come
  -- in, what arrives on them in each round, and on which of them sending succeeds.
  pub record Surroundings : Type 0 where
    pub credentials : Option (Message x.suite)
    pub bind : ℕ → Attempt NetError ℕ
    pub conns : List (Connection x.suite)
    pub reports : Arrivals x
    pub commitments : Arrivals x
    pub challenge_reaches : ℕ → Bool
    pub shares : Arrivals x
    pub attestation_reaches : ℕ → Bool

  unfoldable pub hello_of : Combiner x → Message x.suite
  hello_of s =
      hello 0 combiner (x.suite.serialize s.transport_kp.pk) (x.suite.serialize s.identity_kp.pk)

  -- Phase 1
  unfoldable pub bootstrap :
      Codec (CombinerPackage x)
      → Option (Message x.suite)
      → AuthorityAnchor x.suite
      → ℕ
      → Action (Combiner x) NodeError (Unit {0})
  bootstrap codec credentials anchor now = lift (ok_or receive_failed credentials) >>= λ msg.
      elim msg [
        | secure p ↦ try (load_from_authority x codec p anchor now)
        | _ ↦ lift (err (message "Unexpected message from Authority"))
      ]

  -- `main`: what goes to the signers, and what goes to the tracers. `text` is `MESSAGE_BYTES`.
  unfoldable pub run :
      Codecs
      → Randomness x
      → Times
      → Surroundings
      → AuthorityAnchor x.suite
      → (text : Bytes)
      → Action (Combiner x) NodeError (List (ℕ × Message x.suite) × List (ℕ × Message x.suite))
  unfolding bootstrap send_streams
  run codecs random times around anchor text = do
    bootstrap codecs.config around.credentials anchor times.config
    n ← reads (λ s. expect "called `Option::unwrap()` on a `None` value" s.n)
    n3 ← reads (λ s. expect "called `Option::unwrap()` on a `None` value" s.n3)
    lift (listening (bind_with_retry around.bind).0)
    st ← lift (accept_all n n3 around.conns (no_streams n n3))
    group_key_phase x codecs.report times.reports around.reports st.tracers
    collect_commitments x codecs.commitment times.commitments around.commitments st.signers
    challenge ← try (challenge_phase x codecs.challenge random text times.challenge)
    challenged ← lift (send_streams around.challenge_reaches (broadcast challenge) st.signers)
    collect_sigmas x codecs.share times.shares around.shares st.signers
    (sigma, attestation) ←
        try (attestation_phase x codecs.attestation random text n times.attestation)
    attested ← lift (send_streams around.attestation_reaches (broadcast attestation) st.tracers)
    lift (ok (challenged, attested))

-- ===== src/Signer/Node.antt =====
-- src/bin/signer.rs: what the node sends, and what it does with the messages that it receives.
use simulation_taps_tt.Base.{ℕ, Bytes}
use simulation_taps_tt.Base.Outcome.{ok, err}
use simulation_taps_tt.Base.Action.{Action, lift, ◌>>=◌, ◌>>◌}
use simulation_taps_tt.Crypto.{Codec}
use simulation_taps_tt.Network.{AuthorityAnchor, signer, Message, hello, secure, broadcast}
use simulation_taps_tt.Taps.{Taps}
use simulation_taps_tt.Authority
use simulation_taps_tt.Payloads.{SignerPackage, CommitmentPackage, SigmaPackage}
use simulation_taps_tt.Combiner.{NodeError, message, try}
use simulation_taps_tt.Signer.Defs.{Signer, load_from_authority, set_commitment, set_sigma}

module _ (x : Taps) where
  -- The announcement to the Authority and to the Combiner.
  unfoldable pub hello_of : Signer x → Message x.suite
  hello_of s =
      hello s.id signer (x.suite.serialize s.transport_kp.pk) (x.suite.serialize s.identity_kp.pk)

  -- Phase 1, from the message that comes back from the Authority.
  unfoldable pub bootstrap :
      Codec (Authority.SignerPackage x)
      → Message x.suite
      → AuthorityAnchor x.suite
      → ℕ
      → Action (Signer x) NodeError (Unit {0})
  bootstrap codec msg anchor now = elim msg [
    | secure p ↦ try (load_from_authority x codec p anchor now)
    | _ ↦ lift (err (message "Expected Welcome from Authority"))
  ]

  -- Round 2, from the message that comes back from the Combiner.
  unfoldable pub answer :
      Codec (SignerPackage x)
      → Codec (SigmaPackage x)
      → Message x.suite
      → Bytes
      → ℕ
      → Action (Signer x) NodeError (Message x.suite)
  answer challenge_codec sigma_codec msg random now = elim msg [
    | broadcast p ↦
        try (set_sigma x challenge_codec sigma_codec p random now) >>= λ q. lift (ok (secure q))
    | _ ↦ lift (err (message "Expected SignerPackage from Combiner"))
  ]

  -- What the node draws, and the clock at each step.
  pub record Draws : Type 0 where
    pub commit : x.Commit
    pub commitment_nonce : Bytes
    pub sigma_nonce : Bytes
    pub bootstrap_time : ℕ
    pub commitment_time : ℕ
    pub sigma_time : ℕ

  -- `main` after the keys are made: the two messages that go to the Combiner behind the `Hello`,
  -- from the two that are received.
  unfoldable pub run :
      Codec (Authority.SignerPackage x)
      → Codec (CommitmentPackage x)
      → Codec (SignerPackage x)
      → Codec (SigmaPackage x)
      → Draws
      → AuthorityAnchor x.suite
      → Message x.suite
      → Message x.suite
      → Action (Signer x) NodeError (Message x.suite × Message x.suite)
  unfolding bootstrap answer
  run config_codec commitment_codec challenge_codec sigma_codec draws anchor credentials challenge =
      do
        bootstrap config_codec credentials anchor draws.bootstrap_time
        comm_package ← try (
            set_commitment x commitment_codec draws.commit draws.commitment_nonce
              draws.commitment_time)
        sigma_message ←
            answer challenge_codec sigma_codec challenge draws.sigma_nonce draws.sigma_time
        lift (ok (secure comm_package, sigma_message))

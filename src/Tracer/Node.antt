-- ===== src/Tracer/Node.antt =====
-- src/bin/tracer.rs: the phases of a tracer, over what the mesh delivers.
use simulation_taps_tt.Base.{ℕ, true, false, List, [], ◌∷◌, ◌++◌, Bytes}
use simulation_taps_tt.Base.Map.{Map, insert}
use simulation_taps_tt.Base.Outcome.{Outcome, ok, err, panic}
use simulation_taps_tt.Base.Outcome
use simulation_taps_tt.Base.Action.{Action, ◌>>=◌, ◌>>◌}
use simulation_taps_tt.Crypto.{Codec, SecurePackage, BroadcastPackage, Error}
use simulation_taps_tt.Network.{Message, hello, secure, broadcast}
use simulation_taps_tt.Dkg.{Dkg, TracerError, message}
use simulation_taps_tt.Tracer.State.{Tracer}
use simulation_taps_tt.Tracer.Peers.{DkgSharePayload, DkgRound1Payload, PartialDecryptionPayload}
use simulation_taps_tt.Tracer.KeyGeneration.{
  start_dkg, load_dkg_round1_from_peers, dkg_share_for_peer, load_own_dkg_share, load_dkg_inbox,
}
use simulation_taps_tt.Tracer.Tracing.{
  verify_sigma, verify_proof, partial_decrypt, open_peer_partials, combine_and_trace,
}

module _ (x : Dkg) where
  -- What a round over the mesh delivers: a message from each peer.
  abbrev pub Delivered : Type 0
  Delivered = List (ℕ × Message x.suite)

  unfoldable pub keep_broadcasts : Delivered → List (ℕ × BroadcastPackage x.suite)
  keep_broadcasts [] = []
  keep_broadcasts ((peer, broadcast p) ∷ later) = (peer, p) ∷ keep_broadcasts later
  keep_broadcasts ((peer, secure _) ∷ later) = keep_broadcasts later
  keep_broadcasts ((peer, hello _ _ _ _) ∷ later) = keep_broadcasts later

  unfoldable pub keep_secure : Delivered → List (ℕ × SecurePackage x.suite)
  keep_secure [] = []
  keep_secure ((peer, secure p) ∷ later) = (peer, p) ∷ keep_secure later
  keep_secure ((peer, broadcast _) ∷ later) = keep_secure later
  keep_secure ((peer, hello _ _ _ _) ∷ later) = keep_secure later

  -- `outgoing`: a share for each peer. The nonce and the clock are those of the peer's package.
  unfoldable pub outgoing_shares :
      Codec (DkgSharePayload x)
      → Tracer x
      → (ℕ → Bytes)
      → (ℕ → ℕ)
      → List ℕ
      → Outcome Error (Map (Message x.suite))
  outgoing_shares codec s random now [] = ok []
  outgoing_shares codec s random now (peer ∷ peers) =
      Outcome.◌>>=◌ (dkg_share_for_peer x codec s peer (random peer) (now peer)) λ p.
        Outcome.◌>>=◌ (outgoing_shares codec s random now peers)
          λ rest. ok (insert peer (secure p) rest)

  -- The state after the key generation, from what the two rounds deliver: before `finalize_dkg`.
  unfoldable pub dkg_rounds :
      Codec (DkgRound1Payload x)
      → Codec (DkgSharePayload x)
      → x.Seed
      → Bytes
      → ℕ
      → Delivered
      → ℕ
      → Delivered
      → ℕ
      → Action (Tracer x) TracerError (Unit {0})
  unfolding keep_broadcasts keep_secure
  dkg_rounds round1_codec share_codec seed nonce now round1 now1 round2 now2 =
      start_dkg x round1_codec seed nonce now >>= λ own.
      load_dkg_round1_from_peers x round1_codec (keep_broadcasts round1) now1
      >> (load_own_dkg_share x >> load_dkg_inbox x share_codec (keep_secure round2) now2)

  -- Phases 4 and 5, up to the quorum: the checks of the attestation, and the trace. `partials` is
  -- what the mesh delivers.
  unfoldable pub check_attestation : Tracer x → Outcome TracerError (Unit {0})
  check_attestation s = Outcome.◌>>=◌ (verify_sigma x s) λ sigma_ok. elim sigma_ok [
    | false ↦ err (message "Combiner signature (sigma) is invalid")
    | true ↦ Outcome.◌>>=◌ (verify_proof x s) λ proof_ok. elim proof_ok [
      | false ↦ err (message "Accountability proof is invalid")
      | true ↦ ok tt
    ]
  ]

  unfoldable pub trace_phase :
      Codec (PartialDecryptionPayload x) → Tracer x → Delivered → ℕ → Outcome TracerError (List ℕ)
  unfolding check_attestation keep_secure
  trace_phase codec s partials now = Outcome.◌>>◌ (check_attestation s) (
      Outcome.◌>>=◌ (partial_decrypt x s) λ own_partial.
        combine_and_trace x s
          (open_peer_partials x codec s now (keep_secure partials) ++ (own_partial ∷ [])))

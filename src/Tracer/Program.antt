-- ===== src/Tracer/Program.antt =====
-- `main` of src/bin/tracer.rs, from its keys to the quorum that it traces.
use simulation_taps_tt.Base.{ℕ, Option, none, some, List, [], ◌∷◌, ◌++◌, Bytes, String}
use simulation_taps_tt.Base.Map.{Map, insert}
use simulation_taps_tt.Base.Numerals.{Text, parse}
use simulation_taps_tt.Base.Outcome
use simulation_taps_tt.Base.Outcome.{Outcome, ok, err, panic, expect, ok_or}
use simulation_taps_tt.Base.Action.{Action, reads, lift, ◌>>=◌, ◌>>◌}
use simulation_taps_tt.Crypto.{Codec, Error}
use simulation_taps_tt.Network.{
  NetError, AuthorityAnchor, tracer, Message, hello, secure, broadcast, Attempt,
}
use simulation_taps_tt.Authority
use simulation_taps_tt.Mesh.{
  MeshError, TracerMesh, peer_ids, Inbound, establish, exchange, broadcast_all,
}
use simulation_taps_tt.Payloads.{TracerPackage, TracerPublicKeyPackage}
use simulation_taps_tt.Dkg.{Dkg, TracerError}
use simulation_taps_tt.Tracer.State.{Tracer, load_from_authority}
use simulation_taps_tt.Tracer.Peers.{
  DkgSharePayload, DkgRound1Payload, PartialDecryptionPayload, secure_package_for_combiner,
}
use simulation_taps_tt.Tracer.KeyGeneration.{
  start_dkg, load_dkg_round1_from_peers, load_own_dkg_share, load_dkg_inbox, finalize_dkg,
  own_public_key,
}
use simulation_taps_tt.Tracer.Tracing.{
  load_from_combiner, partial_decrypt, partial_for_peer, open_peer_partials, combine_and_trace,
}
use simulation_taps_tt.Tracer.Node.{
  keep_broadcasts, keep_secure, outgoing_shares, check_attestation,
}

-- The errors behind `Box<dyn Error>`.
pub data MainError : Type 0 where
  receive_failed invalid_index : MainError
  message : String → MainError
  protocol : Error → MainError
  tracing : TracerError → MainError
  mesh : MeshError → MainError

-- `?`, with the conversion of the error.
abbrev pub wrapped : {E A : Type 0} → (E → MainError) → Outcome E A → Outcome MainError A
wrapped f (ok a) = ok a
wrapped f (err e) = err (f e)
wrapped f (panic p) = panic p

abbrev pub attempt : {S E A : Type 0} → (E → MainError) → Action S E A → Action S MainError A
attempt f m s = let (r, s') = m s in (wrapped f r, s')

-- The index on the command line, `0` if there is none.
unfoldable pub index_of : Option Text → Outcome MainError ℕ
index_of none = ok 0
index_of (some text) = ok_or invalid_index (parse 64 text)

-- The codecs of the payloads.
pub record Codecs (x : Dkg) : Type 0 where
  pub config : Codec (Authority.TracerPackage x.taps)
  pub round1 : Codec (DkgRound1Payload x)
  pub share : Codec (DkgSharePayload x)
  pub report : Codec (TracerPublicKeyPackage x.taps)
  pub attestation : Codec (TracerPackage x.taps)
  pub partial : Codec (PartialDecryptionPayload x)

-- What the node draws, and the clock at each step. A package for a peer has a nonce and a time of
-- its own.
pub record Draws (x : Dkg) : Type 0 where
  pub seed : x.Seed
  pub round1_nonce : Bytes
  pub share_nonce : ℕ → Bytes
  pub report_nonce : Bytes
  pub partial_nonce : ℕ → Bytes
  pub config_time : ℕ
  pub round1_time : ℕ
  pub round1_received : ℕ
  pub share_time : ℕ → ℕ
  pub share_received : ℕ
  pub report_time : ℕ
  pub attestation_time : ℕ
  pub partial_time : ℕ → ℕ
  pub partial_received : ℕ

-- What the network delivers: the messages of the Authority and of the Combiner, `none` if receiving
-- fails, the links of the mesh, and the answers on them in its three rounds.
pub record Surroundings (x : Dkg) : Type 0 where
  pub credentials : Option (Message x.suite)
  pub attestation : Option (Message x.suite)
  pub bind : ℕ → Attempt NetError ℕ
  pub dialled : ℕ → Option ℕ
  pub inbound : List (Inbound x.suite)
  pub round1 : ℕ → Message x.suite → Outcome NetError (Message x.suite)
  pub round2 : ℕ → Message x.suite → Outcome NetError (Message x.suite)
  pub round3 : ℕ → Message x.suite → Outcome NetError (Message x.suite)

module _ (x : Dkg) (codecs : Codecs x) (draws : Draws x) where
  -- The announcement to the Authority, to the Combiner and to the peers.
  unfoldable pub hello_of : ℕ → Tracer x → Message x.suite
  hello_of index s =
      hello index tracer (x.suite.serialize s.transport_kp.pk) (x.suite.serialize s.identity_kp.pk)

  -- Phase 1
  unfoldable pub bootstrap :
      Option (Message x.suite) → AuthorityAnchor x.suite → Action (Tracer x) MainError (Unit {0})
  bootstrap credentials anchor = lift (ok_or receive_failed credentials) >>= λ msg. elim msg [
    | secure p ↦ attempt protocol (load_from_authority x codecs.config p anchor draws.config_time)
    | _ ↦ lift (err (message "Unexpected message from Authority"))
  ]

  -- Phase 3, over the mesh: the two rounds of the key generation, up to the key share.
  unfoldable pub generate_key : Surroundings x → TracerMesh → Action (Tracer x) MainError (Unit {0})
  generate_key around links = do
    round1 ← start_dkg x codecs.round1 draws.seed draws.round1_nonce draws.round1_time
    received1 ← lift (wrapped mesh (broadcast_all x.suite around.round1 links (broadcast round1)))
    load_dkg_round1_from_peers x codecs.round1 (keep_broadcasts x received1) draws.round1_received
    outgoing ← reads (λ s.
        wrapped protocol
          (outgoing_shares x codecs.share s draws.share_nonce draws.share_time (peer_ids links)))
    received2 ← lift (wrapped mesh (exchange x.suite around.round2 links outgoing))
    load_own_dkg_share x
    load_dkg_inbox x codecs.share (keep_secure x received2) draws.share_received
    attempt tracing (finalize_dkg x)

  -- The message with `pk_k` for the Combiner.
  unfoldable pub report_key : Tracer x → Outcome MainError (Message x.suite)
  report_key s = Outcome.◌>>=◌ (own_public_key x s) λ pk.
      Outcome.◌>>=◌
        (wrapped protocol (
          secure_package_for_combiner x codecs.report s (record { pk = pk }) draws.report_nonce
            draws.report_time))
        λ p. ok (secure p)

  -- Phase 4
  unfoldable pub receive_attestation :
      Option (Message x.suite) → Action (Tracer x) MainError (Unit {0})
  receive_attestation attestation = lift (ok_or receive_failed attestation) >>= λ msg. elim msg [
    | broadcast p ↦
        attempt protocol (load_from_combiner x codecs.attestation p draws.attestation_time)
        >> reads (λ s. wrapped tracing (check_attestation x s))
    | _ ↦ lift (err (message "Expected TracerPackage from Combiner"))
  ]

  -- `outgoing` of phase 5: the partial decryption for each peer.
  unfoldable pub outgoing_partials :
      Tracer x → x.PartialDecryption → List ℕ → Outcome Error (Map (Message x.suite))
  outgoing_partials s own [] = ok []
  outgoing_partials s own (peer ∷ peers) =
      Outcome.◌>>=◌
        (partial_for_peer x codecs.partial s peer own (draws.partial_nonce peer)
          (draws.partial_time peer))
        λ p. Outcome.◌>>=◌ (outgoing_partials s own peers) λ rest. ok (insert peer (secure p) rest)

  -- Phase 5
  unfoldable pub trace_quorum : Surroundings x → TracerMesh → Tracer x → Outcome MainError (List ℕ)
  trace_quorum around links s = Outcome.◌>>=◌ (partial_decrypt x s) λ own.
      Outcome.◌>>=◌ (wrapped protocol (outgoing_partials s own (peer_ids links))) λ outgoing.
        Outcome.◌>>=◌ (wrapped mesh (exchange x.suite around.round3 links outgoing)) λ received.
          wrapped tracing (
            combine_and_trace x s (
              open_peer_partials x codecs.partial s draws.partial_received (keep_secure x received)
              ++ (own ∷ [])))

  -- `main`: what goes to the Combiner behind the `Hello`, and the quorum. What is unwrapped to be
  -- printed would panic if it was missing.
  unfoldable pub run :
      Surroundings x
      → ℕ
      → AuthorityAnchor x.suite
      → Action (Tracer x) MainError (Message x.suite × List ℕ)
  unfolding bootstrap generate_key report_key receive_attestation trace_quorum
  run around index anchor = do
    bootstrap around.credentials anchor
    n3 ← reads (λ s. expect "called `Option::unwrap()` on a `None` value" s.n3)
    te ← reads (λ s. expect "called `Option::unwrap()` on a `None` value" s.te)
    roster ← reads (λ s. ok_or (message "Peer tracer roster not set") s.peer_tracers)
    links ←
        lift
          (wrapped mesh (establish x.suite around.bind around.dialled around.inbound index roster))
    generate_key around links
    pk_e ← reads (λ s. expect "called `Option::unwrap()` on a `None` value" s.pk_e)
    report ← reads report_key
    receive_attestation around.attestation
    quorum ← reads (trace_quorum around links)
    n ← reads (λ s. expect "called `Option::unwrap()` on a `None` value" s.n)
    t ← reads (λ s. expect "called `Option::unwrap()` on a `None` value" s.t)
    lift (ok (report, quorum))

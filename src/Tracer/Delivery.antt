-- ===== src/Tracer/Delivery.antt =====
-- A share that a dealer seals for a peer reaches that peer's file.
use simulation_taps_tt.Base.{
  ℕ, ◌+◌, ◌≤◌, ◌≡◌, true, some, List, [], ◌∷◌, Bytes, length, get_elem?, arith,
}
use simulation_taps_tt.Base.Map.{lookup, lookup-insert}
use simulation_taps_tt.Base.Outcome.{ok}
use simulation_taps_tt.Crypto.{
  IsLawful, Codec, IsFaithful, SecurePackage, ActorKeys, Error, new_identity, new_transport,
  secure_package,
}
use simulation_taps_tt.Crypto.RoundTrip.{open_secure-secure_package}
use simulation_taps_tt.Dkg.{Dkg}
use simulation_taps_tt.Tracer.State.{Tracer, dkg_index}
use simulation_taps_tt.Tracer.Peers.{DkgSharePayload, peer_keys, seal_for_peer, open_from_peer}
use simulation_taps_tt.Tracer.KeyGeneration.{
  dkg_share_for_peer, record_share, record_inbox, load_dkg_inbox,
}

module _ (x : Dkg) (L : IsLawful x.suite) (codec : Codec (DkgSharePayload x))
    (faithful : IsFaithful codec) where
  -- The dealer, whose two secret keys are `id_sk` and `tr_sk`, seals its share for the tracer with
  -- number `i`, whose transport key is that of `my_sk`. For 60 seconds that tracer opens it, and if
  -- the share verifies against the dealer's broadcast on file, it is on file after the inbox is
  -- loaded.
  pub dkg_share_delivered :
      (E : Type 0) (dealer receiver : Tracer x) (d i : ℕ) (id_sk tr_sk my_sk : x.SecretKey)
      (dealers_peers receivers_peers : List (ActorKeys x.suite)) (receiver_keys : ActorKeys x.suite)
      (participant : x.DkgParticipant) (b : x.DkgBroadcast) (plain random : Bytes) (now later : ℕ)
      → dealer.identity_kp ≡ new_identity x.suite id_sk
      → dealer.transport_kp ≡ new_transport x.suite tr_sk
      → receiver.transport_kp ≡ new_transport x.suite my_sk
      → dealer.peer_tracers ≡ some dealers_peers
      → get_elem? dealers_peers i ≡ some receiver_keys
      → receiver_keys.transport_pk ≡ x.public_key my_sk
      → receiver.peer_tracers ≡ some receivers_peers
      → get_elem? receivers_peers d
        ≡ some (record { identity_pk = x.public_key id_sk; transport_pk = x.public_key tr_sk })
      → receiver.index ≡ some i
      → dealer.dkg_participant ≡ some participant
      → codec.serialize (record { share = x.share_for participant (i + 1) }) ≡ some plain
      → length plain ≤ x.max_plaintext
      → length random ≡ 12
      → now ≤ later
      → later ≤ now + 60
      → lookup (d + 1) receiver.dkg_broadcasts ≡ some b
      → x.verify_share b (x.share_for participant (i + 1)) (i + 1) ≡ true
      → (p : SecurePackage x.suite) × (dkg_share_for_peer x codec dealer i random now ≡ ok p)
        × (lookup
              (d + 1)
              (load_dkg_inbox x {E = E} codec ((d, p) ∷ []) later receiver).1.dkg_shares_received
            ≡ some (x.share_for participant (i + 1)))
  unfolding dkg_share_for_peer seal_for_peer peer_keys open_from_peer load_dkg_inbox record_inbox
      record_share dkg_index secure_package
  dkg_share_delivered E dealer receiver d i id_sk tr_sk my_sk dealers_peers receivers_peers
        receiver_keys participant b plain random now later ei et er ep eg ek erp erg eri ed es short
        twelve h k found good =
      let (p, sealed, opened) =
        open_secure-secure_package x.suite L codec faithful {E = Error} id_sk tr_sk my_sk
          (record { share = x.share_for participant (i + 1) }) plain random now later es short
          twelve h k in
      (
        p,
        ground (arith, sealed, ei, et, ep, eg, ek, ed, es),
        ground (
          arith,
          opened,
          er,
          erp,
          erg,
          eri,
          found,
          good,
          lookup-insert (d + 1) (d + 1) (x.share_for participant (i + 1))
              receiver.dkg_shares_received,
        ),
      )

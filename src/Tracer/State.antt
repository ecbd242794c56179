-- ===== src/Tracer/State.antt =====
-- The state of a tracer, and its configuration by the Authority.
use simulation_taps_tt.Base.{ℕ, ◌+◌, Option, none, some, List, [], Bytes, length, ◌==◌}
use simulation_taps_tt.Base.Map.{Map}
use simulation_taps_tt.Base.Outcome
use simulation_taps_tt.Base.Outcome.{Outcome, ok, expect, guard}
use simulation_taps_tt.Base.Action.{Action, reads, modify, lift, ◌>>=◌, ◌>>◌}
use simulation_taps_tt.Crypto.{
  Codec, SecurePackage, IdentityKeyPair, TransportKeyPair, new_identity, new_transport, ActorKeys,
  Error, invalid_message, open_secure,
}
use simulation_taps_tt.Network.{AuthorityAnchor}
use simulation_taps_tt.Dkg.{Dkg}
use simulation_taps_tt.Authority.{TracerPackage}

pub record Tracer (x : Dkg) : Type 0 where
  pub identity_kp : IdentityKeyPair x.suite
  pub transport_kp : TransportKeyPair x.suite
  pub index : Option ℕ
  pub n3 : Option ℕ
  pub te : Option ℕ
  pub pk_i : Option (List x.PublicKey)
  pub pk_cs : Option x.PublicKey
  pub n : Option ℕ
  pub t : Option ℕ
  pub combiner_keys : Option (ActorKeys x.suite)
  pub peer_tracers : Option (List (ActorKeys x.suite))
  pub dkg_participant : Option x.DkgParticipant
  pub dkg_broadcasts : Map x.DkgBroadcast
  pub dkg_shares_received : Map x.Fq
  pub tracer_key_share : Option x.TracerKeyShare
  pub pk_e : Option x.PublicKey
  pub pk : Option x.PK
  -- the source's `T`
  pub t_cipher : Option x.Cipher
  pub v0 : Option (List x.PublicKey)
  pub v_vec : Option (List x.PublicKey)
  pub proof : Option x.Proofs
  pub sigma : Option x.Sigma
  pub message : Option Bytes

module _ (x : Dkg) where
  -- `Tracer::new`, with the two secret keys that it draws.
  unfoldable pub new_tracer : x.SecretKey → x.SecretKey → Tracer x
  unfolding new_identity new_transport
  new_tracer identity_sk transport_sk = record {
    identity_kp = new_identity x.suite identity_sk;
    transport_kp = new_transport x.suite transport_sk;
    index = none;
    n3 = none;
    te = none;
    pk_i = none;
    pk_cs = none;
    n = none;
    t = none;
    combiner_keys = none;
    peer_tracers = none;
    dkg_participant = none;
    dkg_broadcasts = [];
    dkg_shares_received = [];
    tracer_key_share = none;
    pk_e = none;
    pk = none;
    t_cipher = none;
    v0 = none;
    v_vec = none;
    proof = none;
    sigma = none;
    message = none;
  }

  unfoldable pub load_from_authority :
      Codec (TracerPackage x.taps)
      → SecurePackage x.suite
      → AuthorityAnchor x.suite
      → ℕ
      → Action (Tracer x) Error (Unit {0})
  load_from_authority codec secure_pkg anchor now = do
    config ← reads (λ s.
        open_secure x.suite codec s.transport_kp
          (record { identity_pk = anchor.identity_pk; transport_pk = anchor.transport_pk })
          secure_pkg now)
    lift (guard (length config.peer_tracers == config.n3) invalid_message)
    modify (λ s. record s {
      index = some config.index;
      n3 = some config.n3;
      te = some config.te;
      n = some (length config.pk_i);
      pk_i = some config.pk_i;
      pk_cs = some config.pk_cs;
      t = some config.t;
      combiner_keys = some config.combiner_keys;
      peer_tracers = some config.peer_tracers;
    })

  -- The index of the tracer as a party of the key generation, counted from 1.
  unfoldable pub dkg_index : {E : Type 0} → Tracer x → Outcome E ℕ
  dkg_index s = Outcome.◌>>=◌ (expect "Tracer not bootstrapped" s.index) λ i. ok (i + 1)

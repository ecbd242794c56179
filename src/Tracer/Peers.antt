-- ===== src/Tracer/Peers.antt =====
-- What a tracer seals for the Combiner and for its peers, and opens from them. The last arguments
-- are the random nonce and the clock, or the clock.
use simulation_taps_tt.Base.{ℕ, Bytes, get_elem?}
use simulation_taps_tt.Base.Outcome.{Outcome, expect, ok_or, ◌>>=◌}
use simulation_taps_tt.Crypto.{
  Codec, SecurePackage, BroadcastPackage, ActorKeys, Error, invalid_message, seal_bytes,
  open_secure, sign_broadcast, open_broadcast,
}
use simulation_taps_tt.Dkg.{Dkg}
use simulation_taps_tt.Tracer.State.{Tracer}

-- The payloads of src/tracer.rs.
pub record DkgSharePayload (x : Dkg) : Type 0 where
  pub share : x.Fq

pub record DkgRound1Payload (x : Dkg) : Type 0 where
  pub broadcast : x.DkgBroadcast

pub record PartialDecryptionPayload (x : Dkg) : Type 0 where
  pub partial : x.PartialDecryption

module _ (x : Dkg) where
  unfoldable pub peer_keys : Tracer x → ℕ → Outcome Error (ActorKeys x.suite)
  peer_keys s id = do
    keys ← ok_or invalid_message s.peer_tracers
    ok_or invalid_message (get_elem? keys id)

  module _ {A : Type 0} (codec : Codec A) where
    unfoldable pub secure_package_for_combiner :
        Tracer x → A → Bytes → ℕ → Outcome Error (SecurePackage x.suite)
    secure_package_for_combiner s payload random now = do
      keys ← ok_or invalid_message s.combiner_keys
      plain_bytes ← expect "Failed to serialize package" (codec.serialize payload)
      seal_bytes x.suite s.identity_kp s.transport_kp keys.transport_pk plain_bytes random now

    unfoldable pub seal_for_peer :
        Tracer x → ℕ → A → Bytes → ℕ → Outcome Error (SecurePackage x.suite)
    seal_for_peer s recipient_id payload random now = do
      keys ← peer_keys s recipient_id
      plain ← ok_or invalid_message (codec.serialize payload)
      seal_bytes x.suite s.identity_kp s.transport_kp keys.transport_pk plain random now

    unfoldable pub open_from_peer : Tracer x → ℕ → SecurePackage x.suite → ℕ → Outcome Error A
    open_from_peer s sender_id secure_pkg now = do
      keys ← peer_keys s sender_id
      open_secure x.suite codec s.transport_kp keys secure_pkg now

    unfoldable pub sign_for_peers :
        {E : Type 0} → Tracer x → A → Bytes → ℕ → Outcome E (BroadcastPackage x.suite)
    sign_for_peers s payload nonce now =
        sign_broadcast x.suite codec s.identity_kp payload nonce now

    unfoldable pub open_peer_broadcast :
        Tracer x → ℕ → BroadcastPackage x.suite → ℕ → Outcome Error A
    open_peer_broadcast s sender_id pkg now = do
      keys ← peer_keys s sender_id
      open_broadcast x.suite codec keys.identity_pk pkg now

-- ===== src/Signer/Defs.antt =====
-- The state and the methods of `Signer`. The last arguments are the random nonce and the clock.
use simulation_taps_tt.Base.{ℕ, Option, none, some, Bytes}
use simulation_taps_tt.Base.Outcome.{Outcome, expect, ok_or, guard}
use simulation_taps_tt.Base.Action.{Action, reads, modify, lift, ◌>>=◌, ◌>>◌}
use simulation_taps_tt.Crypto.{
  Codec, SecurePackage, BroadcastPackage, IdentityKeyPair, TransportKeyPair, new_identity,
  new_transport, ActorKeys, Error, invalid_signature, invalid_message, verify_broadcast_data,
  open_secure,
}
use simulation_taps_tt.Crypto
use simulation_taps_tt.Network.{AuthorityAnchor}
use simulation_taps_tt.Taps.{Taps}
use simulation_taps_tt.Authority
use simulation_taps_tt.Payloads.{SignerPackage, CommitmentPackage, SigmaPackage}

pub record Signer (x : Taps) : Type 0 where
  pub id : ℕ
  pub identity_kp : IdentityKeyPair x.suite
  pub transport_kp : TransportKeyPair x.suite
  pub taps_kp : Option x.KeyPair
  pub combiner_keys : Option (ActorKeys x.suite)
  pub current_commitment : Option x.Commit

module _ (x : Taps) where
  -- `Signer::new`, with the two secret keys that it draws.
  unfoldable pub new_signer : ℕ → x.SecretKey → x.SecretKey → Signer x
  unfolding new_identity new_transport
  new_signer id identity_sk transport_sk = record {
    id = id;
    identity_kp = new_identity x.suite identity_sk;
    transport_kp = new_transport x.suite transport_sk;
    taps_kp = none;
    combiner_keys = none;
    current_commitment = none;
  }

  unfoldable pub set_taps_key : x.KeyPair → Signer x → Signer x
  set_taps_key kp s = record s { taps_kp = some kp }

  unfoldable pub secure_package :
      {A E : Type 0}
      → Codec A
      → Signer x
      → A
      → x.PublicKey
      → Bytes
      → ℕ
      → Outcome E (SecurePackage x.suite)
  secure_package codec s payload receiver_pk random now =
      Crypto.secure_package x.suite codec s.identity_kp s.transport_kp receiver_pk payload random
        now

  unfoldable pub load_from_authority :
      Codec (Authority.SignerPackage x)
      → SecurePackage x.suite
      → AuthorityAnchor x.suite
      → ℕ
      → Action (Signer x) Error (Unit {0})
  load_from_authority codec secure_pkg anchor now = do
    config ← reads (λ s.
        open_secure x.suite codec s.transport_kp
          (record { identity_pk = anchor.identity_pk; transport_pk = anchor.transport_pk })
          secure_pkg now)
    modify
        (λ s. record s { taps_kp = some config.my_kp; combiner_keys = some config.combiner_keys })

  -- `Signer::combiner_keys`
  unfoldable pub combiner_keys_of : Signer x → Outcome Error (ActorKeys x.suite)
  combiner_keys_of s = ok_or invalid_message s.combiner_keys

  -- The first argument behind the codec is what `Commit::commit` draws.
  unfoldable pub set_commitment :
      Codec (CommitmentPackage x)
      → x.Commit
      → Bytes
      → ℕ
      → Action (Signer x) Error (SecurePackage x.suite)
  unfolding combiner_keys_of secure_package
  set_commitment codec commit random now = do
    keys ← reads combiner_keys_of
    modify (λ s. record s { current_commitment = some commit })
    reads (λ s.
        secure_package codec s (record { commitment = x.commitment_set commit }) keys.transport_pk
          random now)

  unfoldable pub set_sigma :
      Codec (SignerPackage x)
      → Codec (SigmaPackage x)
      → BroadcastPackage x.suite
      → Bytes
      → ℕ
      → Action (Signer x) Error (SecurePackage x.suite)
  unfolding combiner_keys_of secure_package
  set_sigma challenge_codec sigma_codec signed_pkg random now = do
    keys ← reads combiner_keys_of
    lift (guard (verify_broadcast_data x.suite keys.identity_pk signed_pkg now) invalid_signature)
    payload ← lift (expect "Serialization failed" (challenge_codec.deserialize signed_pkg.text))
    comm ←
        reads
          (λ s. expect "Protocol Error: No commitment found for this round!" s.current_commitment)
    my_key ← reads (λ s. expect "Protocol Error: TAPS keys not initialized" s.taps_kp)
    reads (λ s.
        secure_package sigma_codec s (record { z = x.sign comm my_key payload.c }) keys.transport_pk
          random now)

-- ===== src/Crypto/Channel.antt =====
-- The steps by which every actor seals and opens a package. The same lines stand in the methods of
-- `Authority`, `Signer`, `Combiner` and `Tracer`.
use simulation_taps_tt.Base.{ℕ, Bytes}
use simulation_taps_tt.Base.Outcome.{Outcome, ok, expect, ok_or, guard, ◌>>=◌, ◌>>◌}
use simulation_taps_tt.Crypto.Primitives.{Suite, Codec}
use simulation_taps_tt.Crypto.Package.{
  SecurePackage, BroadcastPackage, IdentityKeyPair, TransportKeyPair, sign_data, verify_data,
  verify_broadcast_data, encrypt_to, decrypt_from,
}

-- `secp256k1::Error`: the three that the program returns, and any other that a called crate may.
pub data Error : Type 0 where
  invalid_signature invalid_message invalid_public_key : Error
  external : ℕ → Error

-- `ActorKeys` of src/authority.rs: the network keys of one actor.
pub record ActorKeys (c : Suite) : Type 0 where
  pub identity_pk : c.PublicKey
  pub transport_pk : c.PublicKey

module _ (c : Suite) where
  -- Encrypts serialised bytes to a receiver and signs the result.
  unfoldable pub seal_bytes :
      {E : Type 0}
      → IdentityKeyPair c
      → TransportKeyPair c
      → c.PublicKey
      → Bytes
      → Bytes
      → ℕ
      → Outcome E (SecurePackage c)
  seal_bytes identity_kp transport_kp receiver_pk plain random now = do
    (ciphertext, nonce) ← encrypt_to c transport_kp receiver_pk plain random
    ok (record {
      ciphertext = ciphertext;
      nonce = nonce;
      timestamp = now;
      signature = sign_data c identity_kp ciphertext nonce now;
    })

  module _ {A : Type 0} where
    -- `secure_package`: serialisation, encryption and signature.
    unfoldable pub secure_package :
        {E : Type 0}
        → Codec A
        → IdentityKeyPair c
        → TransportKeyPair c
        → c.PublicKey
        → A
        → Bytes
        → ℕ
        → Outcome E (SecurePackage c)
    secure_package codec identity_kp transport_kp receiver_pk payload random now = do
      plain ← expect "Failed to serialize package" (codec.serialize payload)
      seal_bytes identity_kp transport_kp receiver_pk plain random now

    -- Verification under the sender's identity key, decryption and deserialisation.
    unfoldable pub open_secure :
        Codec A → TransportKeyPair c → ActorKeys c → SecurePackage c → ℕ → Outcome Error A
    open_secure codec transport_kp sender p now = do
      guard (verify_data c sender.identity_pk p now) invalid_signature
      plain ←
          ok_or invalid_message
            (decrypt_from c transport_kp sender.transport_pk p.ciphertext p.nonce)
      ok_or invalid_message (codec.deserialize plain)

    -- `sign_package` and `sign_for_peers`: a signed payload for many.
    unfoldable pub sign_broadcast :
        {E : Type 0} → Codec A → IdentityKeyPair c → A → Bytes → ℕ → Outcome E (BroadcastPackage c)
    sign_broadcast codec identity_kp payload nonce now = do
      text ← expect "Failed to serialize package" (codec.serialize payload)
      ok (record {
        text = text;
        nonce = nonce;
        timestamp = now;
        signature = sign_data c identity_kp text nonce now;
      })

    unfoldable pub open_broadcast : Codec A → c.PublicKey → BroadcastPackage c → ℕ → Outcome Error A
    open_broadcast codec identity_pk p now = do
      guard (verify_broadcast_data c identity_pk p now) invalid_signature
      ok_or invalid_message (codec.deserialize p.text)

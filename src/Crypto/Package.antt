-- ===== src/Crypto/Package.antt =====
-- The packages and the functions of src/crypto.rs. The clock and the random nonce are arguments.
use simulation_taps_tt.Base.{
  ℕ, ◌-◌, ◌||◌, Bool, false, Option, none, ◌++◌, not, Bytes, length, ltb, ◌==◌, if◌then◌else◌,
}
use simulation_taps_tt.Base.Outcome.{Outcome, ok, expect, ◌>>=◌}
use simulation_taps_tt.Crypto.Primitives.{Suite}
use simulation_taps_tt.Crypto.BeBytes.{be_bytes}

pub record SecurePackage (c : Suite) : Type 0 where
  pub ciphertext : Bytes
  pub nonce : Bytes
  pub timestamp : ℕ
  pub signature : c.Signature

pub record BroadcastPackage (c : Suite) : Type 0 where
  pub text : Bytes
  pub nonce : Bytes
  pub timestamp : ℕ
  pub signature : c.Signature

pub record IdentityKeyPair (c : Suite) : Type 0 where
  pub sk : c.SecretKey
  pub pk : c.PublicKey

pub record TransportKeyPair (c : Suite) : Type 0 where
  pub sk : c.SecretKey
  pub pk : c.PublicKey

-- `IdentityKeyPair::new`, from the secret key that the generator draws.
unfoldable pub new_identity : (c : Suite) → c.SecretKey → IdentityKeyPair c
new_identity c sk = record { sk = sk; pk = c.public_key sk }

-- `TransportKeyPair::new`
unfoldable pub new_transport : (c : Suite) → c.SecretKey → TransportKeyPair c
new_transport c sk = record { sk = sk; pk = c.public_key sk }

module _ (c : Suite) where
  unfoldable pub derive_aes_key : c.SecretKey → c.PublicKey → Bytes
  derive_aes_key my_sk their_pk = c.sha256 (c.shared_secret their_pk my_sk)

  unfoldable pub encrypt_package :
      {E : Type 0} → c.SecretKey → c.PublicKey → Bytes → Bytes → Outcome E (Bytes × Bytes)
  encrypt_package sender_sk receiver_pk plain nonce = do
    ciphertext ←
        expect "Encryption failure!"
          (c.aes_encrypt (derive_aes_key sender_sk receiver_pk) nonce plain)
    ok (ciphertext, nonce)

  -- `none` is the `DecryptError`.
  unfoldable pub decrypt_package : c.SecretKey → c.PublicKey → Bytes → Bytes → Option Bytes
  decrypt_package receiver_sk sender_pk ciphertext nonce =
      if not (length nonce == 12)
      then none
      else c.aes_decrypt (derive_aes_key receiver_sk sender_pk) nonce ciphertext

  -- The buffer that is hashed and signed.
  unfoldable pub signed_buffer : Bytes → Bytes → ℕ → Bytes
  signed_buffer text nonce timestamp = text ++ (nonce ++ be_bytes 8 timestamp)

  unfoldable pub sign_package : c.SecretKey → Bytes → Bytes → ℕ → c.Signature
  unfolding signed_buffer
  sign_package signer_sk text nonce timestamp =
      c.sign_ecdsa (c.sha256 (signed_buffer text nonce timestamp)) signer_sk

  -- The last argument is the clock.
  unfoldable pub verify_package : c.PublicKey → SecurePackage c → ℕ → ℕ → Bool
  unfolding signed_buffer
  verify_package sender_pk p max_age now =
      if ltb now p.timestamp || ltb max_age (now - p.timestamp)
      then false
      else c.verify_ecdsa (c.sha256 (signed_buffer p.ciphertext p.nonce p.timestamp)) p.signature
          sender_pk

  unfoldable pub verify_broadcast_package : c.PublicKey → BroadcastPackage c → ℕ → ℕ → Bool
  unfolding signed_buffer
  verify_broadcast_package sender_pk p max_age now =
      if ltb now p.timestamp || ltb max_age (now - p.timestamp)
      then false
      else c.verify_ecdsa (c.sha256 (signed_buffer p.text p.nonce p.timestamp)) p.signature
          sender_pk

  -- `IdentityKeyPair::sign_data`
  unfoldable pub sign_data : IdentityKeyPair c → Bytes → Bytes → ℕ → c.Signature
  sign_data kp text nonce timestamp = sign_package kp.sk text nonce timestamp

  unfoldable pub verify_data : c.PublicKey → SecurePackage c → ℕ → Bool
  verify_data pk p now = verify_package pk p 60 now

  unfoldable pub verify_broadcast_data : c.PublicKey → BroadcastPackage c → ℕ → Bool
  verify_broadcast_data pk p now = verify_broadcast_package pk p 60 now

  -- `TransportKeyPair::encrypt_to`
  unfoldable pub encrypt_to :
      {E : Type 0} → TransportKeyPair c → c.PublicKey → Bytes → Bytes → Outcome E (Bytes × Bytes)
  encrypt_to kp receiver_pk plain nonce = encrypt_package kp.sk receiver_pk plain nonce

  unfoldable pub decrypt_from : TransportKeyPair c → c.PublicKey → Bytes → Bytes → Option Bytes
  decrypt_from kp sender_pk ciphertext nonce = decrypt_package kp.sk sender_pk ciphertext nonce

-- ===== src/Crypto/RoundTrip.antt =====
-- What one actor seals for another, that actor opens.
use simulation_taps_tt.Base.{ℕ, ◌+◌, ◌≤◌, ◌≡◌, ap, sym, true, some, Bytes, length, arith}
use simulation_taps_tt.Base.Outcome.{ok}
use simulation_taps_tt.Crypto.Primitives.{Suite, IsLawful, Codec, IsFaithful}
use simulation_taps_tt.Crypto.Package.{
  SecurePackage, BroadcastPackage, derive_aes_key, signed_buffer, sign_package, verify_package,
  sign_data, verify_data, verify_broadcast_data, verify_broadcast_package, encrypt_to, decrypt_from,
  encrypt_package, decrypt_package, new_identity, new_transport,
}
use simulation_taps_tt.Crypto.Channel.{
  seal_bytes, secure_package, open_secure, sign_broadcast, open_broadcast,
}

module _ (c : Suite) (L : IsLawful c) where
  derive_aes_key_comm :
      (a b : c.SecretKey)
      → derive_aes_key c a (c.public_key b) ≡ derive_aes_key c b (c.public_key a)
  unfolding derive_aes_key
  derive_aes_key_comm a b = ap c.sha256 (sym (L.shared_secret_comm a b))

  -- A package that was signed at `now` verifies under its signer's key up to `max_age` later.
  pub verify_package-sign_package :
      (sk : c.SecretKey) (ciphertext nonce : Bytes) (now later max_age : ℕ)
      → now ≤ later
      → later ≤ now + max_age
      → verify_package c
          (c.public_key sk)
          (record {
            ciphertext = ciphertext;
            nonce = nonce;
            timestamp = now;
            signature = sign_package c sk ciphertext nonce now;
          })
          max_age
          later
        ≡ true
  unfolding verify_package sign_package
  verify_package-sign_package sk ciphertext nonce now later max_age h k =
      ground (arith, L.verify-sign (c.sha256 (signed_buffer c ciphertext nonce now)) sk)

  module _ {A : Type 0} (codec : Codec A) (faithful : IsFaithful codec) where
    -- Over lawful primitives and a faithful codec, a payload that serialises to admissibly many
    -- bytes is sealed under any 12-byte nonce, and for 60 seconds the receiver, who knows the
    -- sender's two public keys, opens the package and gets the payload.
    pub open_secure-secure_package :
        {E : Type 0} (sender_id sender_sk receiver_sk : c.SecretKey) (payload : A)
        (plain random : Bytes) (now later : ℕ)
        → codec.serialize payload ≡ some plain
        → length plain ≤ c.max_plaintext
        → length random ≡ 12
        → now ≤ later
        → later ≤ now + 60
        → (p : SecurePackage c) × (secure_package c {E = E} codec
              (new_identity c sender_id)
              (new_transport c sender_sk)
              (c.public_key receiver_sk)
              payload
              random
              now
            ≡ ok p)
          × (open_secure c codec
                (new_transport c receiver_sk)
                (record {
                  identity_pk = c.public_key sender_id;
                  transport_pk = c.public_key sender_sk;
                })
                p
                later
              ≡ ok payload)
    unfolding secure_package seal_bytes open_secure new_identity new_transport encrypt_to
        decrypt_from encrypt_package decrypt_package verify_data sign_data
    open_secure-secure_package sender_id sender_sk receiver_sk payload plain random now later es
          short twelve h k =
        let (ct, e, d) =
          L.decrypt-encrypt (derive_aes_key c sender_sk (c.public_key receiver_sk)) random plain
            twelve short in
        (
          record {
            ciphertext = ct;
            nonce = random;
            timestamp = now;
            signature = sign_package c sender_id ct random now;
          },
          ground (arith, e),
          ground (
            arith,
            verify_package-sign_package sender_id ct random now later 60 h k,
            d,
            derive_aes_key_comm sender_sk receiver_sk,
            faithful payload plain es,
          ),
        )

    -- A signed broadcast is opened for 60 seconds by everyone who knows the signer's key.
    pub open_broadcast-sign_broadcast :
        {E : Type 0} (sk : c.SecretKey) (payload : A) (text nonce : Bytes) (now later : ℕ)
        → codec.serialize payload ≡ some text
        → now ≤ later
        → later ≤ now + 60
        → (p : BroadcastPackage c) × (sign_broadcast c {E = E} codec
              (new_identity c sk)
              payload
              nonce
              now
            ≡ ok p)
          × (open_broadcast c codec (c.public_key sk) p later ≡ ok payload)
    unfolding sign_broadcast open_broadcast new_identity verify_broadcast_data
        verify_broadcast_package sign_data sign_package
    open_broadcast-sign_broadcast sk payload text nonce now later es h k = (
      record {
        text = text;
        nonce = nonce;
        timestamp = now;
        signature = c.sign_ecdsa (c.sha256 (signed_buffer c text nonce now)) sk;
      },
      ground arith,
      ground (
        arith,
        L.verify-sign (c.sha256 (signed_buffer c text nonce now)) sk,
        faithful payload text es,
      ),
    )

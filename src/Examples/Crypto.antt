-- ===== src/Examples/Crypto.antt =====
-- The theorems about packages, at toy keys.
use simulation_taps_tt.Base.{◌+◌, ◌≤◌, ◌≡◌, ◌↔◌, refl, true, [], ◌∷◌, Bytes, replicate, arith}
use simulation_taps_tt.Base.Outcome.{ok}
use simulation_taps_tt.Crypto.{
  SecurePackage, BroadcastPackage, Error, new_identity, new_transport, signed_buffer, be_bytes,
  verify_package, verify_data, verify_broadcast_package, secure_package, open_secure,
  sign_broadcast, open_broadcast, decrypt_from, decrypt_package,
}
use simulation_taps_tt.Crypto.Freshness.{verify_package_iff}
use simulation_taps_tt.Crypto.RoundTrip.{open_secure-secure_package, open_broadcast-sign_broadcast}
use simulation_taps_tt.Crypto.Boundary.{open_secure_boundary, verify_broadcast_package_boundary}
use simulation_taps_tt.Payloads.{SignerPackage}
use simulation_taps_tt.Examples.Toy.{toy_suite, toy_suite-IsLawful, toy}
use simulation_taps_tt.Examples.Wires.{codec_of, codec_of-IsFaithful}
use simulation_taps_tt.Examples.Payloads.{signer_wire}

abbrev nonce : Bytes
nonce = replicate 12 9

-- Signed by key 5 at time 100.
abbrev sealed : SecurePackage toy_suite
sealed = record {
  ciphertext = 1 ∷ 2 ∷ [];
  nonce = nonce;
  timestamp = 100;
  signature = (5, signed_buffer toy_suite (1 ∷ 2 ∷ []) nonce 100);
}

abbrev signed : Bytes → Bytes → BroadcastPackage toy_suite
signed text nonce' = record {
  text = text;
  nonce = nonce';
  timestamp = 100;
  signature = (5, signed_buffer toy_suite (1 ∷ 2 ∷ []) nonce 100);
}

verify_package_iff_example : (verify_package toy_suite 5 sealed 60 130 ≡ true) ↔ (
    (100 ≤ 130)
    × (130 ≤ 100 + 60)
    × (toy_suite.verify_ecdsa (signed_buffer toy_suite (1 ∷ 2 ∷ []) nonce 100) sealed.signature 5
        ≡ true))
verify_package_iff_example = verify_package_iff toy_suite 5 sealed 60 130

abbrev challenge : SignerPackage toy
challenge = record { r_point = 7; c = 8 }

open_secure-secure_package_example :
    (p : SecurePackage toy_suite) × (secure_package toy_suite {E = Error}
        (codec_of signer_wire)
        (new_identity toy_suite 5)
        (new_transport toy_suite 6)
        4
        challenge
        nonce
        100
      ≡ ok p)
    × (open_secure toy_suite
          (codec_of signer_wire)
          (new_transport toy_suite 4)
          (record { identity_pk = 5; transport_pk = 6 })
          p
          130
        ≡ ok challenge)
open_secure-secure_package_example =
    open_secure-secure_package toy_suite toy_suite-IsLawful (codec_of signer_wire)
      (codec_of-IsFaithful signer_wire) 5 6 4 challenge (7 ∷ 8 ∷ []) nonce 100 130 refl
      (omega arith) refl (omega arith) (omega arith)

open_broadcast-sign_broadcast_example :
    (p : BroadcastPackage toy_suite) × (sign_broadcast toy_suite {E = Error}
        (codec_of signer_wire)
        (new_identity toy_suite 5)
        challenge
        nonce
        100
      ≡ ok p)
    × (open_broadcast toy_suite (codec_of signer_wire) 5 p 130 ≡ ok challenge)
open_broadcast-sign_broadcast_example =
    open_broadcast-sign_broadcast toy_suite toy_suite-IsLawful (codec_of signer_wire)
      (codec_of-IsFaithful signer_wire) 5 challenge (7 ∷ 8 ∷ []) nonce 100 130 refl (omega arith)
      (omega arith)

open_secure_boundary_example :
    (sealed.ciphertext ≡ sealed.ciphertext)
    × (sealed.nonce ≡ sealed.nonce)
    × (sealed.timestamp ≡ sealed.timestamp)
unfolding open_secure verify_data verify_package signed_buffer be_bytes decrypt_from decrypt_package
open_secure_boundary_example =
    open_secure_boundary toy_suite (codec_of signer_wire) (new_transport toy_suite 4)
      (record { identity_pk = 5; transport_pk = 6 }) sealed sealed 100 160
      {a = record { r_point = 1; c = 2 }} {b = record { r_point = 1; c = 2 }} (omega arith)
      (omega arith) refl refl refl

verify_broadcast_package_boundary_example :
    verify_broadcast_package toy_suite 5 (signed (1 ∷ 2 ∷ []) nonce) 60 110
    ≡ verify_broadcast_package toy_suite 5 (signed (1 ∷ []) (2 ∷ nonce)) 60 110
verify_broadcast_package_boundary_example =
    verify_broadcast_package_boundary toy_suite 5 (signed (1 ∷ 2 ∷ []) nonce)
      (signed (1 ∷ []) (2 ∷ nonce)) 60 110 refl refl refl

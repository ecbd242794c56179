-- ===== src/Examples/Signer.antt =====
-- The theorems about a signer and the Combiner, for one signer.
use simulation_taps_tt.Network.{secure, broadcast}
use simulation_taps_tt.Base.{ℕ, ◌≡◌, refl, true, none, some, [], ◌∷◌, Bytes, replicate, arith}
use simulation_taps_tt.Base.Map.{insert}
use simulation_taps_tt.Base.Outcome.{ok}
use simulation_taps_tt.Crypto.{
  SecurePackage, BroadcastPackage, ActorKeys, Error, new_identity, new_transport, signed_buffer,
  be_bytes, verify_broadcast_data, verify_broadcast_package, sign_broadcast, sign_data,
  sign_package, seal_bytes, encrypt_to, encrypt_package, open_secure, verify_data, verify_package,
  decrypt_from, decrypt_package,
}
use simulation_taps_tt.Crypto
use simulation_taps_tt.Payloads.{SignerPackage}
use simulation_taps_tt.Signer.Session.{IsSession, run_authentic}
use simulation_taps_tt.Signer.{
  Signer, Draws, run, load_from_authority, secure_package, combiner_keys_of, set_commitment,
  set_sigma,
}
use simulation_taps_tt.Signer.Rounds.{
  set_sigma_verified, IsConfigured, Expects, commitment_delivered, sigma_delivered,
}
use simulation_taps_tt.Combiner.{Combiner, new_combiner, load_commitment, load_sigma}
use simulation_taps_tt.Examples.Toy.{toy_suite, toy_suite-IsLawful, toy}
use simulation_taps_tt.Examples.Wires.{codec_of, codec_of-IsFaithful}
use simulation_taps_tt.Examples.Payloads.{
  credentials_wire, signer_wire, commitment_wire, sigma_wire,
}

abbrev pub combiner_keys : ActorKeys toy_suite
combiner_keys = record { identity_pk = 5; transport_pk = 6 }

-- Signer 0, with the secret keys 3 and 4, after its commitment 7.
abbrev pub committed : Signer toy
committed = record {
  id = 0;
  identity_kp = record { sk = 3; pk = 3 };
  transport_kp = record { sk = 4; pk = 4 };
  taps_kp = some 50;
  combiner_keys = some combiner_keys;
  current_commitment = some 7;
}

-- The Combiner that waits for it.
abbrev pub waiting : Combiner toy
unfolding new_combiner
waiting = record (new_combiner toy 5 6) {
  signer_keys = some (record { identity_pk = 3; transport_pk = 4 } ∷ []);
  n = some 1;
}

pub committed-IsConfigured : IsConfigured toy 3 4 5 6 committed
unfolding new_identity new_transport
committed-IsConfigured = record { identity = refl; transport = refl; combiner = refl }

pub waiting-Expects : Expects toy 3 4 5 6 committed waiting
unfolding new_combiner
waiting-Expects = record {
  identity = refl;
  transport = refl;
  roster = record { identity_pk = 3; transport_pk = 4 } ∷ [];
  known_roster = refl;
  entry = refl;
  count = 1;
  known_count = refl;
  in_range = omega arith;
}

abbrev nonce : Bytes
nonce = replicate 12 9

commitment_delivered_example :
    (p : SecurePackage toy_suite) × (set_commitment toy
        (codec_of commitment_wire)
        8
        nonce
        100
        committed
      ≡ (ok p, record committed { current_commitment = some 8 }))
    × (load_commitment toy (codec_of commitment_wire) 0 p 130 waiting
        ≡ (ok tt, record waiting { commitments = insert 0 8 waiting.commitments }))
commitment_delivered_example =
    commitment_delivered toy 3 4 5 6 toy_suite-IsLawful committed committed-IsConfigured waiting
      waiting-Expects (8 ∷ []) nonce 100 130 (omega arith) refl (omega arith) (omega arith)
      (codec_of commitment_wire) 8 (codec_of-IsFaithful commitment_wire) refl

abbrev challenge : SignerPackage toy
challenge = record { r_point = 7; c = 2 }

sigma_delivered_example :
    (p : BroadcastPackage toy_suite) × (q : SecurePackage toy_suite) × (sign_broadcast toy_suite
        {E = Error}
        (codec_of signer_wire)
        waiting.identity_kp
        challenge
        nonce
        90
      ≡ ok p)
    × (set_sigma toy (codec_of signer_wire) (codec_of sigma_wire) p nonce 100 committed
        ≡ (ok q, committed))
    × (load_sigma toy (codec_of sigma_wire) 0 q 130 waiting
        ≡ (ok tt, record waiting { sigmas = insert 0 107 waiting.sigmas }))
sigma_delivered_example =
    sigma_delivered toy 3 4 5 6 toy_suite-IsLawful committed committed-IsConfigured waiting
      waiting-Expects (107 ∷ []) nonce 100 130 (omega arith) refl (omega arith) (omega arith)
      (codec_of signer_wire) (codec_of sigma_wire) challenge 7 50 (7 ∷ 2 ∷ []) nonce 90
      (codec_of-IsFaithful signer_wire) (codec_of-IsFaithful sigma_wire) refl refl refl refl
      (omega arith) (omega arith)

-- The challenge, broadcast at time 90.
abbrev sent : BroadcastPackage toy_suite
sent = record {
  text = 7 ∷ 2 ∷ [];
  nonce = nonce;
  timestamp = 90;
  signature = (5, signed_buffer toy_suite (7 ∷ 2 ∷ []) nonce 90);
}

abbrev answered : SecurePackage toy_suite
answered = record {
  ciphertext = 107 ∷ [];
  nonce = nonce;
  timestamp = 100;
  signature = (3, signed_buffer toy_suite (107 ∷ []) nonce 100);
}

set_sigma_verified_example :
    (committed ≡ committed)
    × ((keys : ActorKeys toy_suite) × (commit : ℕ) × (kp : ℕ) × (payload : SignerPackage toy)
        × (some combiner_keys ≡ some keys)
        × (verify_broadcast_data toy_suite keys.identity_pk sent 100 ≡ true)
        × ((codec_of signer_wire).deserialize sent.text ≡ some payload)
        × (some 7 ≡ some commit)
        × (some 50 ≡ some kp)
        × (secure_package toy {E = Error}
              (codec_of sigma_wire)
              committed
              (record { z = toy.sign commit kp payload.c })
              keys.transport_pk
              nonce
              100
            ≡ ok answered))
unfolding set_sigma combiner_keys_of verify_broadcast_data verify_broadcast_package signed_buffer
    be_bytes secure_package Crypto.secure_package seal_bytes encrypt_to encrypt_package sign_data
    sign_package
set_sigma_verified_example =
    set_sigma_verified toy (codec_of signer_wire) (codec_of sigma_wire) sent nonce 100 committed
      committed answered refl

-- The credentials of signer 0, from the Authority with the secret keys 1 and 2, at time 100.
abbrev credentials : SecurePackage toy_suite
credentials = record {
  ciphertext = 50 ∷ 5 ∷ 6 ∷ [];
  nonce = nonce;
  timestamp = 100;
  signature = (1, signed_buffer toy_suite (50 ∷ 5 ∷ 6 ∷ []) nonce 100);
}

abbrev draws : Draws toy
draws = record {
  commit = 7;
  commitment_nonce = nonce;
  sigma_nonce = nonce;
  bootstrap_time = 110;
  commitment_time = 100;
  sigma_time = 100;
}

-- Its commitment at time 100.
abbrev committed_package : SecurePackage toy_suite
committed_package = record {
  ciphertext = 7 ∷ [];
  nonce = nonce;
  timestamp = 100;
  signature = (3, signed_buffer toy_suite (7 ∷ []) nonce 100);
}

abbrev fresh : Signer toy
fresh = record committed { taps_kp = none; combiner_keys = none; current_commitment = none }

run_authentic_example :
    IsSession toy
      (codec_of credentials_wire)
      (codec_of commitment_wire)
      (codec_of signer_wire)
      (codec_of sigma_wire)
      draws
      (record { identity_pk = 1; transport_pk = 2 })
      fresh
      (secure credentials)
      (broadcast sent)
      (secure committed_package)
      (secure answered)
unfolding run load_from_authority set_commitment set_sigma combiner_keys_of verify_broadcast_data
    verify_broadcast_package signed_buffer be_bytes secure_package Crypto.secure_package seal_bytes
    encrypt_to encrypt_package sign_data sign_package open_secure verify_data verify_package
    decrypt_from decrypt_package
run_authentic_example =
    run_authentic toy (codec_of credentials_wire) (codec_of commitment_wire) (codec_of signer_wire)
      (codec_of sigma_wire) draws (record { identity_pk = 1; transport_pk = 2 }) fresh
      (secure credentials) (broadcast sent) (secure committed_package) (secure answered) committed
      refl

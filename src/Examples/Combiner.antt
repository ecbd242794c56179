-- ===== src/Examples/Combiner.antt =====
-- The theorems about the Combiner, for two signers and two tracers.
use mathlib.Core.List.{Permᴰ}
use simulation_taps_tt.Base.{
  ℕ, zero, suc, ◌+◌, ◌<◌, ◌≡◌, ◌⊎◌, refl, none, some, List, [], ◌∷◌, ◌++◌, Bytes, get_elem?,
  replicate, arith,
}
use simulation_taps_tt.Base.Map.{lookup}
use simulation_taps_tt.Base.Outcome.{ok, Safe}
use simulation_taps_tt.Crypto.{
  SecurePackage, BroadcastPackage, ActorKeys, Error, signed_buffer, be_bytes, sign_broadcast,
  sign_data, sign_package, open_secure, verify_data, verify_package, decrypt_from, decrypt_package,
}
use simulation_taps_tt.Network.{signer, tracer, hello, secure}
use simulation_taps_tt.Authority.{Connection}
use simulation_taps_tt.Combiner.{
  Combiner, collect_commitments, load_commitment, load_tracer_public_key,
  tracer_public_keys_complete, finalize_group_key, product, Randomness, challenge_phase,
  attestation_phase, StatementOf, accept_all, no_streams, group_key_phase, keys_in_roster,
}
use simulation_taps_tt.Combiner.Authenticity.{SignedBy, load_commitment_authentic}
use simulation_taps_tt.Payloads.{CommitmentPackage}
use simulation_taps_tt.Combiner.Rounds.{collect_commitments_authentic}
use simulation_taps_tt.Combiner.Provenance.{Round, Sourced, filed}
use simulation_taps_tt.Combiner.KeyProduct.{
  IsConfigured, load_tracer_public_key_authentic, finalize_group_key-product,
}
use simulation_taps_tt.Combiner.Connections.{IsConnected, accept_all_complete}
use simulation_taps_tt.Combiner.GroupKeyPhase.{file, group_key_phase-product}
use simulation_taps_tt.Combiner.Pipeline.{
  challenge_phase_lem, attestation_phase_lem, attested, attested_proofs, attested_sigma,
}
use simulation_taps_tt.Examples.Toy.{toy_suite, toy, toy-HasSmallScalars, toy-IsAbelian}
use simulation_taps_tt.Examples.Wires.{codec_of}
use simulation_taps_tt.Examples.Payloads.{
  signer_wire, commitment_wire, public_key_wire, attestation_wire,
}

abbrev nonce : Bytes
nonce = replicate 12 9

-- A commitment, or a share, or a key 7, from the actor whose identity key is 4, at time 100.
abbrev from_four : SecurePackage toy_suite
from_four = record {
  ciphertext = 7 ∷ [];
  nonce = nonce;
  timestamp = 100;
  signature = (4, signed_buffer toy_suite (7 ∷ []) nonce 100);
}

abbrev roster : List (ActorKeys toy_suite)
roster =
    record { identity_pk = 3; transport_pk = 13 }
    ∷ record { identity_pk = 4; transport_pk = 14 }
    ∷ []

-- With the configuration, and the commitments and keys of both.
abbrev pub configured : Combiner toy
configured = record {
  identity_kp = record { sk = 5; pk = 5 };
  transport_kp = record { sk = 6; pk = 6 };
  signer_keys = some roster;
  tracer_keys = some roster;
  pk_i = some (50 ∷ 51 ∷ []);
  quorum = some (50 ∷ 51 ∷ []);
  n = some 2;
  t = some 2;
  n3 = some 2;
  te = some 2;
  taps_kp = some 52;
  tracer_pks = (0, 8) ∷ (1, 9) ∷ [];
  pk_e = some 17;
  pk = some (17 ∷ 52 ∷ 50 ∷ 51 ∷ []);
  commitments = (0, 20) ∷ (1, 21) ∷ [];
  sigmas = (0, 30) ∷ (1, 31) ∷ [];
  t_cipher = none;
  c_cipher = none;
  r_point = none;
  message = none;
  c = none;
  alpha = none;
  beta = none;
  w_z = none;
  w_rho = none;
  w_gamma = none;
  w_psi = none;
  w_phi_i = none;
  v0 = none;
  v_vec = none;
  blinds = none;
  hats = none;
  proofs = none;
}

abbrev one : ℕ
one = 1

load_commitment_authentic_example :
    let (r, s') = load_commitment toy (codec_of commitment_wire) 1 from_four 130 configured in
    ((lookup 1 s'.commitments ≡ lookup 1 configured.commitments)
      ⊎ ((one ≡ one)
          × ((n : ℕ) × (configured.n ≡ some n) × (1 < n))
          × SignedBy toy configured.signer_keys 1 from_four 130))
    × ((r ≡ ok tt) ⊎ (s' ≡ configured))
load_commitment_authentic_example =
    load_commitment_authentic toy (codec_of commitment_wire) 1 1 from_four 130 configured

-- Both signers are connected, and the same package arrives from both.
abbrev commitment_round : Round toy (CommitmentPackage toy)
commitment_round = record {
  codec = codec_of commitment_wire;
  now = λ _. 130;
  arrivals = λ _. some (secure from_four);
  streams = some 1 ∷ some 2 ∷ [];
  roster = some roster;
  own = record { sk = 6; pk = 6 };
}

collect_commitments_authentic_example :
    let s =
      (collect_commitments toy
        (codec_of commitment_wire)
        (λ _. 130)
        (λ _. some (secure from_four))
        (some 1 ∷ some 2 ∷ [])
        configured).1 in
    (filed toy s ≡ record (filed toy configured) { commitments = s.commitments })
    × Sourced toy commitment_round (λ p. p.commitment) configured.commitments s.commitments
collect_commitments_authentic_example =
    collect_commitments_authentic toy commitment_round configured refl refl

load_tracer_public_key_authentic_example :
    let (r, s') =
      load_tracer_public_key toy (codec_of public_key_wire) 1 from_four 130 configured in
    ((lookup 1 s'.tracer_pks ≡ lookup 1 configured.tracer_pks)
      ⊎ ((one ≡ one) × SignedBy toy configured.tracer_keys 1 from_four 130))
    × ((r ≡ ok tt) ⊎ (s' ≡ configured))
load_tracer_public_key_authentic_example =
    load_tracer_public_key_authentic toy (codec_of public_key_wire) 1 1 from_four 130 configured

configured-IsConfigured : IsConfigured toy roster configured
configured-IsConfigured = record {
  roster = refl;
  count = refl;
  ascends = (omega arith, (omega arith, tt));
  below = (omega arith, (omega arith, tt));
}

on_file : (k : ℕ) → lookup k configured.tracer_pks ≡ get_elem? (8 ∷ 9 ∷ []) k
on_file zero = refl
on_file (suc zero) = refl
on_file (suc (suc k)) = ground arith

finalize_group_key-product_example :
    finalize_group_key toy configured
    ≡ (ok tt, record configured { pk_e = some 17; pk = some (17 ∷ 52 ∷ 50 ∷ 51 ∷ []) })
unfolding tracer_public_keys_complete product
finalize_group_key-product_example =
    finalize_group_key-product toy roster configured configured-IsConfigured toy-IsAbelian
      (50 ∷ 51 ∷ []) 52 17 (8 ∷ 9 ∷ []) (9 ∷ 8 ∷ []) (omega arith) refl refl refl on_file
      (Permᴰ.swap refl refl) refl

-- A tracer that claims an id of its own, and one that claims it again.
abbrev conns : List (Connection toy_suite)
conns =
    record { socket = 1; received = some (hello 0 tracer [] []) }
    ∷ record { socket = 2; received = some (hello 0 tracer [] []) }
    ∷ record { socket = 3; received = some (hello 0 signer [] []) }
    ∷ []

accept_all_complete_example : Safe (IsConnected 1 1) (accept_all 1 1 conns (no_streams 1 1))
accept_all_complete_example = accept_all_complete 1 1 conns

-- With one tracer and no key on file.
abbrev before_reports : Combiner toy
before_reports = record configured {
  tracer_keys = some (record { identity_pk = 4; transport_pk = 14 } ∷ []);
  n3 = some 1;
  tracer_pks = [];
}

group_key_phase-product_example :
    group_key_phase toy
      (codec_of public_key_wire)
      (λ _. 130)
      (λ _. some (secure from_four))
      (some 7 ∷ [])
      before_reports
    ≡ (
      ok tt,
      record before_reports {
        tracer_pks = file 0 (7 ∷ []) [];
        pk_e = some 7;
        pk = some (7 ∷ 52 ∷ 50 ∷ 51 ∷ []);
      },
    )
unfolding keys_in_roster open_secure verify_data verify_package signed_buffer be_bytes decrypt_from
    decrypt_package product
group_key_phase-product_example =
    group_key_phase-product toy (codec_of public_key_wire) (λ _. 130) (λ _. some (secure from_four))
      before_reports toy-IsAbelian (record { identity_pk = 4; transport_pk = 14 } ∷ [])
      (50 ∷ 51 ∷ []) 52 7 (some 7 ∷ []) (7 ∷ []) (7 ∷ []) refl refl refl refl (omega arith) refl
      refl
      ((7, from_four, record { identity_pk = 4; transport_pk = 14 }, refl, refl, refl, refl), tt)
      (Permᴰ.cons refl Permᴰ.nil) refl

abbrev pub random : Randomness toy
random = record {
  psi = 1;
  rho = 2;
  bits_seed = 3;
  blinds_seed = 4;
  challenge_nonce = nonce;
  attestation_nonce = nonce;
}

challenge_phase_lem_example :
    (t_scalar : ℕ) × (challenge : BroadcastPackage toy_suite) × (toy.scalar_from_be_bytes
        (replicate 24 0 ++ be_bytes 8 2)
      ≡ some t_scalar)
    × ((sign_broadcast toy_suite {E = Error}
            (codec_of signer_wire)
            configured.identity_kp
            (record { r_point = 41; c = 41 })
            nonce
            100
          ≡ ok challenge)
        × (challenge_phase toy (codec_of signer_wire) random (1 ∷ []) 100 configured ≡ (
          ok challenge,
          record configured {
            r_point = some 41;
            w_psi = some 1;
            t_cipher = some (1, 1 + t_scalar);
            c = some 41;
            message = some (1 ∷ []);
          },
        )))
challenge_phase_lem_example =
    challenge_phase_lem toy configured random (1 ∷ []) toy-HasSmallScalars (codec_of signer_wire)
      (λ a. (_, refl)) (50 ∷ 51 ∷ []) 2 100 (17 ∷ 52 ∷ 50 ∷ 51 ∷ []) (20 ∷ 21 ∷ []) 41 refl refl
      refl (omega arith) refl (refl, (refl, tt)) refl

-- After the challenge.
abbrev pub challenged : Combiner toy
challenged = record configured {
  r_point = some 41;
  w_psi = some 1;
  t_cipher = some (1, 3);
  c = some 41;
  message = some (1 ∷ []);
}

abbrev pub the_attested : StatementOf toy
the_attested =
    attested toy challenged random (1 ∷ []) (50 ∷ 51 ∷ []) (17 ∷ 52 ∷ 50 ∷ 51 ∷ []) 17 41 52 (1, 3)
      41 (30 ∷ 31 ∷ []) 2

abbrev pub the_proofs : ℕ
the_proofs =
    attested_proofs toy challenged random (1 ∷ []) (50 ∷ 51 ∷ []) (17 ∷ 52 ∷ 50 ∷ 51 ∷ []) 17 41 52
      (1, 3) 41 (30 ∷ 31 ∷ []) 2

abbrev pub the_sigma : ℕ × (ℕ × ℕ)
the_sigma =
    attested_sigma toy challenged random (1 ∷ []) (50 ∷ 51 ∷ []) (17 ∷ 52 ∷ 50 ∷ 51 ∷ []) 17 41 52
      (1, 3) 41 (30 ∷ 31 ∷ []) 2

abbrev pub the_text : Bytes
the_text = attestation_wire.write (record {
  t_cipher = (1, 3);
  v0 = the_attested.v0;
  v_vec = the_attested.v;
  proof = the_proofs;
  sigma = the_sigma;
  m = 1 ∷ [];
})

abbrev the_package : BroadcastPackage toy_suite
the_package = record {
  text = the_text;
  nonce = nonce;
  timestamp = 100;
  signature = (5, signed_buffer toy_suite the_text nonce 100);
}

attestation_phase_lem_example :
    (attestation_phase toy (codec_of attestation_wire) random (1 ∷ []) 2 100 challenged).0
    ≡ ok (the_sigma, the_package)
unfolding sign_broadcast sign_data sign_package
attestation_phase_lem_example =
    attestation_phase_lem toy challenged random (1 ∷ []) (50 ∷ 51 ∷ []) (17 ∷ 52 ∷ 50 ∷ 51 ∷ []) 17
      41 52 (1, 3) 41 (30 ∷ 31 ∷ []) 2 (codec_of attestation_wire) 100 refl refl refl refl refl refl
      refl refl refl refl (refl, (refl, tt)) refl

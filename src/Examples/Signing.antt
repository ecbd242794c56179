-- ===== src/Examples/Signing.antt =====
-- A whole run of the Combiner, with one signer and one tracer, in a toy network.
use simulation_taps_tt.Base.{
  ℕ, zero, suc, ◌<◌, inl, inr, ◌≡◌, refl, Bool, true, false, some, [], ◌∷◌, ◌++◌, Bytes, arith,
  replicate,
}
use simulation_taps_tt.Base.Outcome.{Outcome, ok, err, panic}
use simulation_taps_tt.Crypto.{
  BroadcastPackage, Error, from_be, be_bytes, signed_buffer, new_identity, new_transport,
  sign_broadcast, open_secure, decrypt_from, decrypt_package, derive_aes_key, verify_package,
  verify_data, sign_data, sign_package,
}
use simulation_taps_tt.Network.{
  signer, tracer, Message, hello, secure, broadcast, AuthorityAnchor, bound, bind_with_retry,
  bind_loop,
}
use simulation_taps_tt.Authority.{CombinerPackage}
use simulation_taps_tt.Combiner.{
  Streams, new_combiner, Randomness, load_from_authority, no_streams, accept_all, connect,
  connect_signer, connect_tracer, group_key_phase, collect_public_keys, for_streams,
  take_public_key, load_tracer_public_key, open_tracer_package, keys_of_tracer, keys_in_roster,
  tracer_public_keys_complete, finalize_group_key, product, collect_commitments, take_commitment,
  load_commitment, keys_of_signer, handle_commitment, challenge_phase, compute_aggregated_nonce,
  gather, encrypt_threshold, compute_parameters, prepare_signer_package, collect_sigmas, take_sigma,
  load_sigma, handle_sigma, attestation_phase, compute_aggregated_sign, compute_encrypted_signature,
  compute_encrypted_bits, compute_alpha, compute_phis, compute_blinds, compute_proofs, compute_beta,
  compute_hats, statement, construct_sigma, construct_pi, prepare_tracer_package,
}
use simulation_taps_tt.Combiner
use simulation_taps_tt.Combiner.Program.{Codecs, Times, Surroundings, bootstrap, run, send_streams}
use simulation_taps_tt.Combiner.Provenance.{filed}
use simulation_taps_tt.Combiner.Completion.{TakePart, run_completes}
use simulation_taps_tt.Combiner.Returning.{Announced, accept_all_returns}
use simulation_taps_tt.Combiner.RunNoPanic.{run-NeverPanics}
use simulation_taps_tt.Crypto.NoPanic.{NeverPanics}
use simulation_taps_tt.Combiner.Run.{Accounts, run_accounted}
use simulation_taps_tt.Examples.Toy.{toy_suite, toy, toy-IsAbelian, toy-HasSmallScalars}
use simulation_taps_tt.Examples.Wires.{codec_of}
use simulation_taps_tt.Examples.Payloads.{
  combiner_wire, public_key_wire, commitment_wire, signer_wire, sigma_wire, attestation_wire,
}

abbrev nonce : Bytes
nonce = replicate 12 9

abbrev codecs : Codecs toy
codecs = record {
  config = codec_of combiner_wire;
  report = codec_of public_key_wire;
  commitment = codec_of commitment_wire;
  challenge = codec_of signer_wire;
  share = codec_of sigma_wire;
  attestation = codec_of attestation_wire;
}

abbrev times : Times toy
times = record {
  config = 110;
  reports = λ _. 110;
  commitments = λ _. 120;
  challenge = 120;
  shares = λ _. 120;
  attestation = 120;
}

abbrev random : Randomness toy
random = record {
  psi = 1;
  rho = 2;
  bits_seed = 3;
  blinds_seed = 4;
  challenge_nonce = nonce;
  attestation_nonce = nonce;
}

abbrev config : CombinerPackage toy
config = record {
  kp_cs = 52;
  pk_i = 50 ∷ [];
  n = 1;
  t = 1;
  n3 = 1;
  te = 1;
  quo = 50 ∷ [];
  signer_keys = record { identity_pk = 3; transport_pk = 13 } ∷ [];
  tracer_keys = record { identity_pk = 4; transport_pk = 14 } ∷ [];
}

-- Signed by the owner of a key, at time 100.
abbrev sealed : ℕ → Bytes → Message toy_suite
sealed key bytes = secure (record {
  ciphertext = bytes;
  nonce = nonce;
  timestamp = 100;
  signature = (key, signed_buffer toy_suite bytes nonce 100);
})

abbrev around : Surroundings toy
around = record {
  credentials = some (sealed 1 (combiner_wire.write config));
  bind = λ _. bound 3;
  conns =
      record { socket = 7; received = some (hello 0 signer (13 ∷ []) (3 ∷ [])) }
      ∷ record { socket = 8; received = some (hello 0 tracer (14 ∷ []) (4 ∷ [])) }
      ∷ [];
  reports = λ _. some (sealed 4 (17 ∷ []));
  commitments = λ _. some (sealed 3 (20 ∷ []));
  challenge_reaches = λ _. true;
  shares = λ _. some (sealed 3 (30 ∷ []));
  attestation_reaches = λ _. true;
}

abbrev anchor : AuthorityAnchor toy_suite
anchor = record { identity_pk = 1; transport_pk = 2 }

run_accounted_example :
    Accounts toy codecs times around anchor
      (filed toy (new_combiner toy 5 6))
      (new_combiner toy 5 6)
      (filed toy (run toy codecs random times around anchor (1 ∷ []) (new_combiner toy 5 6)).1)
run_accounted_example =
    run_accounted toy codecs times around anchor random (1 ∷ []) (new_combiner toy 5 6)

abbrev returned : {E A : Type 0} → Outcome E A → Bool
returned (ok _) = true
returned (err _) = false
returned (panic _) = false

-- That run returns, with a key, a commitment and a share on file.
run_returns :
    let (r, s) = run toy codecs random times around anchor (1 ∷ []) (new_combiner toy 5 6) in
    (returned r ≡ true)
    × (s.tracer_pks ≡ (0, 17) ∷ [])
    × (s.commitments ≡ (0, 20) ∷ [])
    × (s.sigmas ≡ (0, 30) ∷ [])
unfolding run bootstrap send_streams load_from_authority no_streams accept_all connect
    connect_signer connect_tracer group_key_phase collect_public_keys for_streams take_public_key
    load_tracer_public_key open_tracer_package keys_of_tracer keys_in_roster
    tracer_public_keys_complete finalize_group_key product collect_commitments take_commitment
    load_commitment keys_of_signer handle_commitment challenge_phase compute_aggregated_nonce gather
    encrypt_threshold compute_parameters prepare_signer_package collect_sigmas take_sigma load_sigma
    handle_sigma attestation_phase compute_aggregated_sign compute_encrypted_signature
    compute_encrypted_bits compute_alpha compute_phis compute_blinds compute_proofs compute_beta
    compute_hats statement construct_sigma construct_pi prepare_tracer_package Combiner.sign_package
    bind_with_retry bind_loop be_bytes signed_buffer new_identity new_transport sign_broadcast
    open_secure decrypt_from decrypt_package derive_aes_key verify_package verify_data sign_data
    sign_package new_combiner
run_returns = (refl, refl, refl, refl)

-- Everyone takes part in that run.
takes_part : TakePart toy codecs random times around anchor (1 ∷ []) 5 6
unfolding no_streams accept_all connect connect_signer connect_tracer keys_in_roster bind_with_retry
    bind_loop be_bytes signed_buffer new_combiner new_identity new_transport open_secure
    decrypt_from decrypt_package derive_aes_key verify_package verify_data product
takes_part = record {
  config = config;
  configured = (_, refl, refl);
  signers = refl;
  tracers = refl;
  some_tracer = omega arith;
  threshold = omega arith;
  listener = 3;
  listens = refl;
  st = record { signers = some 7 ∷ []; tracers = some 8 ∷ []; connected_count = 2 };
  connected = refl;
  pks = 17 ∷ [];
  every_tracer = refl;
  reports = ((8, _, _, refl, refl, refl, refl), tt);
  pk_e = 17;
  point = refl;
  comms = record { commitment = 20 } ∷ [];
  every_commitment = refl;
  commitments = ((7, _, _, refl, refl, refl, refl), tt);
  r = 20;
  aggregated = refl;
  signs = record { z = 30 } ∷ [];
  every_share = refl;
  shares = ((7, _, _, refl, refl, refl, refl), tt);
  challenge_reaches = λ _. refl;
  attestation_reaches = λ _. refl;
}

run_completes_example :
    (t_scalar : ℕ) × (challenge : BroadcastPackage toy_suite) × (attestation : BroadcastPackage
      toy_suite)
    × (some (from_be (replicate 24 0 ++ be_bytes 8 1)) ≡ some t_scalar)
    × (sign_broadcast toy_suite {E = Error}
          (codec_of signer_wire)
          (new_identity toy_suite 5)
          (record { r_point = 20; c = 20 })
          nonce
          120
        ≡ ok challenge)
    × ((run toy codecs random times around anchor (1 ∷ []) (new_combiner toy 5 6)).0
        ≡ ok ((7, broadcast challenge) ∷ [], (8, broadcast attestation) ∷ []))
unfolding takes_part
run_completes_example =
    run_completes toy codecs random times around anchor (1 ∷ []) 5 6 takes_part toy-IsAbelian
      toy-HasSmallScalars (λ a. (_, refl)) (λ a. (_, refl))

greets : (i : ℕ) → i < 1 → Announced 1 1 signer i around.conns
greets zero lt = inl (_, refl, (_, _, refl))
greets (suc i) lt = absurd (omega arith)

greets_too : (i : ℕ) → i < 1 → Announced 1 1 tracer i around.conns
greets_too zero lt = inr (inl (_, refl, (_, _, refl)))
greets_too (suc i) lt = absurd (omega arith)

accept_all_returns_example : (st : Streams) × (accept_all 1 1 around.conns (no_streams 1 1) ≡ ok st)
accept_all_returns_example =
    accept_all_returns 1 1 around.conns ((_, refl), ((_, refl), tt)) greets greets_too

run-NeverPanics_example :
    NeverPanics (run toy codecs random times around anchor (1 ∷ []) (new_combiner toy 5 6)).0
run-NeverPanics_example =
    run-NeverPanics toy codecs random times around (1 ∷ []) (λ a. (_, refl)) (λ a. (_, refl))
      (λ _ _. tt) toy-HasSmallScalars anchor (new_combiner toy 5 6)

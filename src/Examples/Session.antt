-- ===== src/Examples/Session.antt =====
-- A whole run of a tracer, the first of two, in a toy network.
use simulation_taps_tt.Base.{ℕ, ◌≡◌, refl, none, some, List, [], ◌∷◌, Bytes, replicate}
use simulation_taps_tt.Base.Outcome.{ok}
use simulation_taps_tt.Base.Action.Ensures.{Ensures}
use simulation_taps_tt.Crypto.{
  ActorKeys, be_bytes, signed_buffer, new_identity, new_transport, sign_broadcast, open_broadcast,
  seal_bytes, open_secure, encrypt_to, encrypt_package, decrypt_from, decrypt_package,
  derive_aes_key, sign_package, verify_package, verify_broadcast_package, sign_data, verify_data,
  verify_broadcast_data,
}
use simulation_taps_tt.Network.{
  tracer, Message, hello, secure, broadcast, AuthorityAnchor, bound, bind_with_retry, bind_loop,
}
use simulation_taps_tt.Authority
use simulation_taps_tt.Mesh.{
  received, establish, accept_links, admit, admits, dial, broadcast_all, exchange, jobs, join_all,
  same_for, peer_ids,
}
use simulation_taps_tt.Payloads.{TracerPackage}
use simulation_taps_tt.Tracer.{
  new_tracer, PartialDecryptionPayload, load_from_authority, start_dkg, load_dkg_round1,
  record_broadcasts, record_broadcast, sign_for_peers, keep_broadcasts, keep_secure,
  load_dkg_round1_from_peers, open_broadcasts, open_peer_broadcast, peer_keys, outgoing_shares,
  dkg_share_for_peer, seal_for_peer, open_from_peer, record_share, record_inbox, load_own_dkg_share,
  load_dkg_inbox, finalize_dkg, own_public_key, secure_package_for_combiner, load_from_combiner,
  check_attestation, verify_sigma, verify_proof, statement, partial_decrypt, partial_for_peer,
  open_peer_partials, combine_and_trace, valid_partials, decode_bits, positions, dkg_index,
}
use simulation_taps_tt.Tracer.Program.{
  Codecs, Draws, Surroundings, run, bootstrap, generate_key, report_key, receive_attestation,
  outgoing_partials, trace_quorum,
}
use simulation_taps_tt.Examples.Toy.{toy_suite, toy, toy_dkg}
use simulation_taps_tt.Examples.Wires.{Wire, number, via, codec_of}
use simulation_taps_tt.Examples.Payloads.{
  tracer_wire, round1_wire, share_wire, public_key_wire, attestation_wire,
}

abbrev partial_wire : Wire (PartialDecryptionPayload toy_dkg)
partial_wire = via (λ n. record { partial = n }) (λ k. k.partial) (λ _. refl) number

abbrev codecs : Codecs toy_dkg
codecs = record {
  config = codec_of tracer_wire;
  round1 = codec_of round1_wire;
  share = codec_of share_wire;
  report = codec_of public_key_wire;
  attestation = codec_of attestation_wire;
  partial = codec_of partial_wire;
}

abbrev nonce : Bytes
nonce = replicate 12 9

abbrev draws : Draws toy_dkg
draws = record {
  seed = 5;
  round1_nonce = nonce;
  share_nonce = λ _. nonce;
  report_nonce = nonce;
  partial_nonce = λ _. nonce;
  config_time = 110;
  round1_time = 110;
  round1_received = 110;
  share_time = λ _. 110;
  share_received = 120;
  report_time = 120;
  attestation_time = 120;
  partial_time = λ _. 120;
  partial_received = 120;
}

abbrev roster : List (ActorKeys toy_suite)
roster =
    record { identity_pk = 3; transport_pk = 13 }
    ∷ record { identity_pk = 4; transport_pk = 14 }
    ∷ []

abbrev config : Authority.TracerPackage toy
config = record {
  index = 0;
  n3 = 2;
  te = 2;
  pk_i = 50 ∷ 51 ∷ [];
  pk_cs = 52;
  t = 2;
  combiner_keys = record { identity_pk = 5; transport_pk = 6 };
  peer_tracers = roster;
}

-- Signed by the owner of a key, at time 100.
abbrev sealed : ℕ → Bytes → Message toy_suite
sealed key bytes = secure (record {
  ciphertext = bytes;
  nonce = nonce;
  timestamp = 100;
  signature = (key, signed_buffer toy_suite bytes nonce 100);
})

abbrev signed : ℕ → Bytes → Message toy_suite
signed key bytes = broadcast (record {
  text = bytes;
  nonce = nonce;
  timestamp = 100;
  signature = (key, signed_buffer toy_suite bytes nonce 100);
})

abbrev content : TracerPackage toy
content = record {
  t_cipher = (1, 3);
  v0 = 3 ∷ 3 ∷ [];
  v_vec = 50 ∷ 51 ∷ [];
  proof = 5;
  sigma = (5, (2, 63));
  m = 1 ∷ [];
}

-- What the Authority, the Combiner and tracer 1 send.
abbrev around : Surroundings toy_dkg
around = record {
  credentials = some (sealed 1 (tracer_wire.write config));
  attestation = some (signed 5 (attestation_wire.write content));
  bind = λ _. bound 3;
  dialled = λ _. none;
  inbound = received 8 (hello 1 tracer (14 ∷ []) (4 ∷ replicate 32 0)) ∷ [];
  round1 = λ _ _. ok (signed 4 (2 ∷ 6 ∷ []));
  round2 = λ _ _. ok (sealed 4 (7 ∷ []));
  round3 = λ _ _. ok (sealed 4 (2 ∷ []));
}

abbrev anchor : AuthorityAnchor toy_suite
anchor = record { identity_pk = 1; transport_pk = 2 }

-- That run ends, with the report of the tracer's key and with a quorum of two.
session_ends :
    (run toy_dkg codecs draws around 0 anchor (new_tracer toy_dkg 3 13)).0
    ≡ ok (
      secure (record {
        ciphertext = 3 ∷ [];
        nonce = nonce;
        timestamp = 120;
        signature = (3, signed_buffer toy_suite (3 ∷ []) nonce 120);
      }),
      0 ∷ 2 ∷ [],
    )
unfolding run bootstrap generate_key report_key receive_attestation outgoing_partials trace_quorum
    new_tracer new_identity new_transport load_from_authority establish bind_with_retry bind_loop
    accept_links admit admits dial start_dkg load_dkg_round1 record_broadcasts record_broadcast
    sign_for_peers sign_broadcast broadcast_all exchange jobs join_all same_for peer_ids
    keep_broadcasts keep_secure load_dkg_round1_from_peers open_broadcasts open_peer_broadcast
    open_broadcast peer_keys outgoing_shares dkg_share_for_peer seal_for_peer seal_bytes
    open_from_peer open_secure record_share record_inbox load_own_dkg_share load_dkg_inbox
    finalize_dkg own_public_key secure_package_for_combiner load_from_combiner check_attestation
    verify_sigma verify_proof statement partial_decrypt partial_for_peer open_peer_partials
    combine_and_trace valid_partials decode_bits positions dkg_index encrypt_to encrypt_package
    decrypt_from decrypt_package derive_aes_key sign_package verify_package verify_broadcast_package
    sign_data verify_data verify_broadcast_data signed_buffer be_bytes
session_ends = refl

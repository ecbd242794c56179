-- ===== src/Examples/Tracer.antt =====
-- The theorems about the tracers, for two of them.
use simulation_taps_tt.Base.{◌↔◌, ℕ, ◌≡◌, refl, none, some, List, [], ◌∷◌, Bytes, replicate, arith}
use simulation_taps_tt.Base.Map.{lookup}
use simulation_taps_tt.Base.Outcome.{ok}
use simulation_taps_tt.Crypto.{
  SecurePackage, BroadcastPackage, ActorKeys, Error, new_identity, new_transport, signed_buffer,
}
use simulation_taps_tt.Network.{Message, broadcast, secure}
use simulation_taps_tt.Dkg.{TracerError}
use simulation_taps_tt.Combiner.{attestation_phase}
use simulation_taps_tt.Tracer.{
  Tracer, dkg_share_for_peer, load_dkg_inbox, dkg_rounds, load_from_combiner, statement,
  challenge_c, check_attestation, valid_partials, decode_bits, positions, combine_and_trace,
}
use simulation_taps_tt.Tracer.Qualified.{IsSound, dkg_rounds-IsSound}
use simulation_taps_tt.Tracer.Delivery.{dkg_share_delivered}
use simulation_taps_tt.Tracer.Agreement.{attestation_agreement}
use simulation_taps_tt.Tracer.Traced.{IsTrace, combine_and_trace_iff}
use simulation_taps_tt.Examples.Toy.{toy_suite, toy_suite-IsLawful, toy, toy_dkg}
use simulation_taps_tt.Examples.Wires.{codec_of, codec_of-IsFaithful}
use simulation_taps_tt.Examples.Payloads.{share_wire, round1_wire, attestation_wire}
use simulation_taps_tt.Examples.Combiner.{challenged, random, the_attested, the_sigma, the_text}

abbrev nonce : Bytes
nonce = replicate 12 9

abbrev roster : List (ActorKeys toy_suite)
roster =
    record { identity_pk = 3; transport_pk = 13 }
    ∷ record { identity_pk = 4; transport_pk = 14 }
    ∷ []

-- Tracer 0, bootstrapped.
abbrev first : Tracer toy_dkg
first = record {
  identity_kp = record { sk = 3; pk = 3 };
  transport_kp = record { sk = 13; pk = 13 };
  index = some 0;
  n3 = some 2;
  te = some 2;
  pk_i = none;
  pk_cs = none;
  n = none;
  t = none;
  combiner_keys = none;
  peer_tracers = some roster;
  dkg_participant = none;
  dkg_broadcasts = [];
  dkg_shares_received = [];
  tracer_key_share = none;
  pk_e = none;
  pk = none;
  t_cipher = none;
  v0 = none;
  v_vec = none;
  proof = none;
  sigma = none;
  message = none;
}

-- What tracer 1 sends: its broadcast, with the secret 6, and its share for tracer 0.
abbrev round1 : List (ℕ × Message toy_suite)
round1 =
    (
      1,
      broadcast (record {
        text = 2 ∷ 6 ∷ [];
        nonce = nonce;
        timestamp = 100;
        signature = (4, signed_buffer toy_suite (2 ∷ 6 ∷ []) nonce 100);
      }),
    )
    ∷ []

abbrev round2 : List (ℕ × Message toy_suite)
round2 =
    (
      1,
      secure (record {
        ciphertext = 7 ∷ [];
        nonce = nonce;
        timestamp = 110;
        signature = (4, signed_buffer toy_suite (7 ∷ []) nonce 110);
      }),
    )
    ∷ []

dkg_rounds-IsSound_example :
    IsSound toy_dkg 2 1
      (dkg_rounds toy_dkg
        (codec_of round1_wire)
        (codec_of share_wire)
        5
        nonce
        100
        round1
        110
        round2
        120
        first).1
dkg_rounds-IsSound_example =
    dkg_rounds-IsSound toy_dkg 2 1 (codec_of round1_wire) (codec_of share_wire) 5 nonce 100 round1
      110 round2 120 0 first refl refl refl refl refl

-- Tracer 0, after `start_dkg`.
abbrev dealer : Tracer toy_dkg
dealer = record {
  identity_kp = record { sk = 3; pk = 3 };
  transport_kp = record { sk = 13; pk = 13 };
  index = some 0;
  n3 = some 2;
  te = some 2;
  pk_i = none;
  pk_cs = none;
  n = none;
  t = none;
  combiner_keys = none;
  peer_tracers = some roster;
  dkg_participant = some (1, 5);
  dkg_broadcasts = (1, (1, 5)) ∷ [];
  dkg_shares_received = [];
  tracer_key_share = none;
  pk_e = none;
  pk = none;
  t_cipher = none;
  v0 = none;
  v_vec = none;
  proof = none;
  sigma = none;
  message = none;
}

-- Tracer 1, with the broadcast of tracer 0 on file.
abbrev receiver : Tracer toy_dkg
receiver = record {
  identity_kp = record { sk = 4; pk = 4 };
  transport_kp = record { sk = 14; pk = 14 };
  index = some 1;
  n3 = some 2;
  te = some 2;
  pk_i = none;
  pk_cs = none;
  n = none;
  t = none;
  combiner_keys = none;
  peer_tracers = some roster;
  dkg_participant = none;
  dkg_broadcasts = (1, (1, 5)) ∷ [];
  dkg_shares_received = [];
  tracer_key_share = none;
  pk_e = none;
  pk = none;
  t_cipher = none;
  v0 = none;
  v_vec = none;
  proof = none;
  sigma = none;
  message = none;
}

dkg_share_delivered_example :
    (p : SecurePackage toy_suite) × (dkg_share_for_peer toy_dkg
        (codec_of share_wire)
        dealer
        1
        nonce
        100
      ≡ ok p)
    × (lookup 1
          (load_dkg_inbox toy_dkg {E = Error}
            (codec_of share_wire)
            ((0, p) ∷ [])
            130
            receiver).1.dkg_shares_received
        ≡ some 7)
unfolding new_identity new_transport
dkg_share_delivered_example =
    dkg_share_delivered toy_dkg toy_suite-IsLawful (codec_of share_wire)
      (codec_of-IsFaithful share_wire) Error dealer receiver 0 1 3 13 14 roster roster
      (record { identity_pk = 4; transport_pk = 14 }) (1, 5) (1, 5) (7 ∷ []) nonce 100 130 refl refl
      refl refl refl refl refl refl refl refl refl (omega arith) refl (omega arith) (omega arith)
      refl refl

-- Tracer 0, after the key generation.
abbrev checking : Tracer toy_dkg
checking = record {
  identity_kp = record { sk = 3; pk = 3 };
  transport_kp = record { sk = 13; pk = 13 };
  index = some 0;
  n3 = some 2;
  te = some 2;
  pk_i = none;
  pk_cs = none;
  n = none;
  t = none;
  combiner_keys = some (record { identity_pk = 5; transport_pk = 6 });
  peer_tracers = some roster;
  dkg_participant = none;
  dkg_broadcasts = [];
  dkg_shares_received = [];
  tracer_key_share = none;
  pk_e = none;
  pk = some (17 ∷ 52 ∷ 50 ∷ 51 ∷ []);
  t_cipher = none;
  v0 = none;
  v_vec = none;
  proof = none;
  sigma = none;
  message = none;
}

attestation_agreement_example :
    (p : BroadcastPackage toy_suite) × ((attestation_phase toy
        (codec_of attestation_wire)
        random
        (1 ∷ [])
        2
        100
        challenged).0
      ≡ ok (the_sigma, p))
    × (let (result, v') = load_from_combiner toy_dkg (codec_of attestation_wire) p 130 checking in
        (result ≡ ok tt)
        × (statement toy_dkg {E = TracerError} v' the_sigma ≡ ok the_attested)
        × (challenge_c toy_dkg {E = TracerError} v' ≡ ok 41)
        × (check_attestation toy_dkg v' ≡ ok tt))
unfolding new_identity
attestation_agreement_example =
    attestation_agreement toy_dkg toy_suite-IsLawful (codec_of attestation_wire)
      (codec_of-IsFaithful attestation_wire) challenged random (1 ∷ []) (50 ∷ 51 ∷ [])
      (17 ∷ 52 ∷ 50 ∷ 51 ∷ []) 17 41 52 (1, 3) 41 (30 ∷ 31 ∷ []) 2 checking
      (record { identity_pk = 5; transport_pk = 6 }) 5 the_text 100 130 refl refl refl refl refl
      refl refl refl refl refl (refl, (refl, tt)) refl refl (omega arith) (omega arith) refl refl
      refl refl refl refl refl

-- Tracer 0, with an attestation and a key share; two signers are needed.
abbrev tracing : Tracer toy_dkg
tracing = record {
  identity_kp = record { sk = 3; pk = 3 };
  transport_kp = record { sk = 13; pk = 13 };
  index = some 0;
  n3 = some 2;
  te = some 2;
  pk_i = none;
  pk_cs = none;
  n = none;
  t = some 2;
  combiner_keys = none;
  peer_tracers = some roster;
  dkg_participant = none;
  dkg_broadcasts = [];
  dkg_shares_received = [];
  tracer_key_share = some (1 ∷ 2 ∷ []);
  pk_e = none;
  pk = some (17 ∷ 52 ∷ 50 ∷ 51 ∷ []);
  t_cipher = some (1, 3);
  v0 = some (3 ∷ 3 ∷ []);
  v_vec = some (50 ∷ 51 ∷ []);
  proof = some 5;
  sigma = some (3, (2, 63));
  message = some (1 ∷ []);
}

combine_and_trace_iff_example :
    (combine_and_trace toy_dkg tracing (1 ∷ 2 ∷ []) ≡ ok (0 ∷ 2 ∷ []))
    ↔ IsTrace toy_dkg tracing (1 ∷ 2 ∷ []) (0 ∷ 2 ∷ [])
combine_and_trace_iff_example = combine_and_trace_iff toy_dkg tracing (1 ∷ 2 ∷ []) (0 ∷ 2 ∷ [])

-- That quorum is traced.
traces : combine_and_trace toy_dkg tracing (1 ∷ 2 ∷ []) ≡ ok (0 ∷ 2 ∷ [])
unfolding combine_and_trace valid_partials decode_bits positions statement
traces = refl

-- ===== src/Examples/Authority.antt =====
-- The theorems about the Authority and the configuration, for a toy network.
use simulation_taps_tt.Base.{
  ℕ, ◌+◌, ◌-◌, ◌*◌, ◌<◌, ◌≤◌, ◌≡◌, refl, map, none, some, List, [], ◌∷◌, Bytes, replicate,
  get_elem?, arith,
}
use simulation_taps_tt.Base.Outcome.{ok, Safe}
use simulation_taps_tt.Crypto.{SecurePackage, ActorKeys, Error}
use simulation_taps_tt.Network.{message, signer, combiner, tracer, hello}
use simulation_taps_tt.Authority.{
  signer_threshold, tracer_threshold, Connection, Registry, empty_registry, handle_message,
  handshake, new_authority, anchor_of, register, register_signer, prepare_signer_package,
  prepare_combiner_package, prepare_tracer_package, new_key_pairs, new_combiner_package,
  new_tracer_package, signer_public_keys, draw_from,
}
use simulation_taps_tt.Authority.Thresholds.{signer_threshold_bounds, tracer_threshold_bounds}
use simulation_taps_tt.Authority.Registration.{
  handshake_complete, IsRegistered, handle_message_keeps,
}
use simulation_taps_tt.Bootstrap.{signer_bootstrap, combiner_bootstrap, tracer_bootstrap}
use simulation_taps_tt.Signer
use simulation_taps_tt.Signer.{new_signer}
use simulation_taps_tt.Combiner
use simulation_taps_tt.Combiner.{new_combiner}
use simulation_taps_tt.Tracer
use simulation_taps_tt.Tracer.{new_tracer}
use simulation_taps_tt.Examples.Toy.{toy_suite, toy_suite-IsLawful, toy, toy_dkg}
use simulation_taps_tt.Examples.Wires.{codec_of, codec_of-IsFaithful}
use simulation_taps_tt.Examples.Payloads.{credentials_wire, combiner_wire, tracer_wire}

signer_threshold_bounds_example :
    (1 ≤ signer_threshold 10) × (signer_threshold 10 ≤ 10) × (10 < 2 * signer_threshold 10)
signer_threshold_bounds_example = signer_threshold_bounds 10 (omega arith)

tracer_threshold_bounds_example :
    (1 ≤ tracer_threshold 5)
    × (tracer_threshold 5 ≤ 5)
    × (2 * 5 < 3 * tracer_threshold 5)
    × (3 * (tracer_threshold 5 - 1) ≤ 2 * 5)
tracer_threshold_bounds_example = tracer_threshold_bounds 5 (omega arith) (omega arith)

abbrev point : ℕ → Bytes
point pk = pk ∷ replicate 32 0

-- One signer, the Combiner and one tracer connect, the signer twice.
abbrev conns : List (Connection toy_suite)
conns =
    record { socket = 1; received = some (hello 0 signer (point 11) (point 12)) }
    ∷ record { socket = 2; received = some (hello 0 signer (point 21) (point 22)) }
    ∷ record { socket = 3; received = some (hello 0 tracer (point 31) (point 32)) }
    ∷ record { socket = 4; received = some (hello 0 combiner (point 41) (point 42)) }
    ∷ []

handshake_complete_example :
    Safe
      (IsRegistered toy_suite 1 1 (message "Missing signer") (message "Missing tracer"))
      (handshake toy_suite 1 1 conns (empty_registry toy_suite 1 1))
handshake_complete_example =
    handshake_complete toy_suite 1 1 conns (message "Missing signer") (message "Missing tracer")

abbrev first_keys : ActorKeys toy_suite
first_keys = record { identity_pk = 12; transport_pk = 11 }

abbrev one_signer : Registry toy_suite
one_signer = record {
  signers = some (1, first_keys) ∷ [];
  combiner = none;
  tracers = none ∷ [];
  connected_count = 1;
}

handle_message_keeps_example : get_elem? one_signer.signers 0 ≡ some (some (1, first_keys))
unfolding handle_message register register_signer
handle_message_keeps_example =
    handle_message_keeps toy_suite 1 1 one_signer one_signer 2 0 signer
      (hello 0 signer (point 21) (point 22)) (1, first_keys) refl refl

-- The key pairs that the Authority draws.
abbrev draw : ℕ → ℕ
draw i = 50 + i

abbrev nonce : Bytes
nonce = replicate 12 9

signer_bootstrap_example :
    (p : SecurePackage toy_suite) × (prepare_signer_package toy {E = Error}
        (codec_of credentials_wire)
        (new_authority toy draw 1 2 3)
        0
        first_keys
        4
        nonce
        100
      ≡ ok p)
    × (Signer.load_from_authority toy
          (codec_of credentials_wire)
          p
          (anchor_of toy (new_authority toy draw 1 2 3))
          130
          (new_signer toy 0 3 4)
        ≡ (
          ok tt,
          record (new_signer toy 0 3 4) { taps_kp = some 50; combiner_keys = some first_keys },
        ))
signer_bootstrap_example =
    signer_bootstrap toy draw toy_suite-IsLawful 1 2 3 4 (50 ∷ 12 ∷ 11 ∷ []) nonce 100 130 3
      (omega arith) refl (omega arith) (omega arith) (codec_of credentials_wire) 0 first_keys
      (codec_of-IsFaithful credentials_wire) (omega arith) refl

combiner_bootstrap_example :
    (p : SecurePackage toy_suite) × (prepare_combiner_package toy {E = Error}
        (codec_of combiner_wire)
        (new_authority toy draw 1 2 1)
        (50 ∷ [])
        1
        1
        1
        1
        (first_keys ∷ [])
        (first_keys ∷ [])
        4
        nonce
        100
      ≡ ok p)
    × (Combiner.load_from_authority toy
          (codec_of combiner_wire)
          p
          (anchor_of toy (new_authority toy draw 1 2 1))
          130
          (new_combiner toy 3 4)
        ≡ (
          ok tt,
          record (new_combiner toy 3 4) {
            signer_keys = some (first_keys ∷ []);
            tracer_keys = some (first_keys ∷ []);
            pk_i = some (map toy.keypair_public (draw_from draw 0 1));
            quorum = some (50 ∷ []);
            n = some 1;
            t = some 1;
            n3 = some 1;
            te = some 1;
            taps_kp = some 51;
          },
        ))
unfolding new_combiner_package new_key_pairs signer_public_keys draw_from
combiner_bootstrap_example =
    combiner_bootstrap toy draw toy_suite-IsLawful 1 2 3 4 _ nonce 100 130 1 (omega arith) refl
      (omega arith) (omega arith) (codec_of combiner_wire) (50 ∷ []) 1 1 1 (first_keys ∷ [])
      (first_keys ∷ []) (codec_of-IsFaithful combiner_wire) refl refl refl

tracer_bootstrap_example :
    (p : SecurePackage toy_suite) × (prepare_tracer_package toy {E = Error}
        (codec_of tracer_wire)
        (new_authority toy draw 1 2 2)
        0
        1
        1
        2
        first_keys
        (first_keys ∷ [])
        4
        nonce
        100
      ≡ ok p)
    × (Tracer.load_from_authority toy_dkg
          (codec_of tracer_wire)
          p
          (anchor_of toy (new_authority toy draw 1 2 2))
          130
          (new_tracer toy_dkg 3 4)
        ≡ (
          ok tt,
          record (new_tracer toy_dkg 3 4) {
            index = some 0;
            n3 = some 1;
            te = some 1;
            n = some 2;
            pk_i = some (map toy.keypair_public (draw_from draw 0 2));
            pk_cs = some 52;
            t = some 2;
            combiner_keys = some first_keys;
            peer_tracers = some (first_keys ∷ []);
          },
        ))
unfolding new_tracer_package new_key_pairs signer_public_keys draw_from
tracer_bootstrap_example =
    tracer_bootstrap toy_dkg draw toy_suite-IsLawful 1 2 3 4 _ nonce 100 130 2 0 1 1 2 first_keys
      (first_keys ∷ []) (codec_of tracer_wire) (codec_of-IsFaithful tracer_wire) (omega arith) refl
      (omega arith) (omega arith) refl refl

-- ===== src/Bootstrap.antt =====
-- What the Authority sends and what the actors load: src/authority.rs with the methods
-- `load_from_authority` of src/signer.rs, src/combiner.rs and src/tracer.rs.
use simulation_taps_tt.Base.{
  ℕ, zero, suc, ◌+◌, ◌<◌, ◌≤◌, ◌≡◌, refl, ap, subst, some, List, map, Bytes, length, get_elem?,
  arith,
}
use simulation_taps_tt.Base.Outcome.{ok}
use simulation_taps_tt.Crypto.{
  IsLawful, Codec, IsFaithful, SecurePackage, ActorKeys, Error, new_identity, new_transport,
}
use simulation_taps_tt.Crypto.RoundTrip.{open_secure-secure_package}
use simulation_taps_tt.Taps.{Taps}
use simulation_taps_tt.Dkg.{Dkg}
use simulation_taps_tt.Authority.{
  draw_from, new_key_pairs, signer_public_keys, new_authority, anchor_of, SignerPackage,
  CombinerPackage, TracerPackage, new_signer_package, new_combiner_package, new_tracer_package,
  prepare_signer_package, prepare_combiner_package, prepare_tracer_package,
}
use simulation_taps_tt.Signer
use simulation_taps_tt.Signer.{Signer, new_signer}
use simulation_taps_tt.Combiner
use simulation_taps_tt.Combiner.{Combiner, new_combiner}
use simulation_taps_tt.Tracer
use simulation_taps_tt.Tracer.{Tracer, new_tracer}

module _ (x : Taps) (draw : ℕ → x.KeyPair) where
  get_elem?-draw_from : (i n k : ℕ) → k < n → get_elem? (draw_from draw i n) k ≡ some (draw (i + k))
  unfolding draw_from
  get_elem?-draw_from i zero k h = absurd (omega (arith, h))
  get_elem?-draw_from i (suc n) zero h = ground arith
  get_elem?-draw_from i (suc n) (suc k) h =
      let e : suc i + k ≡ i + suc k = omega arith in
      subst (λ m. get_elem? (draw_from draw (suc i) n) k ≡ some (draw m)) e
        (get_elem?-draw_from (suc i) n k (omega (arith, h)))

  length-draw_from : (i n : ℕ) → length (map x.keypair_public (draw_from draw i n)) ≡ n
  unfolding draw_from
  length-draw_from i zero = refl
  length-draw_from i (suc n) = ap suc (length-draw_from (suc i) n)

  module _ (L : IsLawful x.suite) (authority_id authority_tr id_sk tr_sk : x.SecretKey)
      (plain random : Bytes) (now later n : ℕ) (short : length plain ≤ x.max_plaintext)
      (twelve : length random ≡ 12) (le : now ≤ later) (within : later ≤ now + 60) where
    -- Signer `i` of `n`, given the package that the Authority prepares for it, loads within 60
    -- seconds just what the Authority has: the key pair that was drawn for `i`, and the Combiner's
    -- keys.
    pub signer_bootstrap :
        (codec : Codec (SignerPackage x)) (i : ℕ) (combiner_keys : ActorKeys x.suite)
        → IsFaithful codec
        → i < n
        → codec.serialize (record { my_kp = draw i; combiner_keys = combiner_keys }) ≡ some plain
        → (p : SecurePackage x.suite) × (prepare_signer_package x {E = Error} codec
              (new_authority x draw authority_id authority_tr n)
              i
              combiner_keys
              (x.public_key tr_sk)
              random
              now
            ≡ ok p)
          × (Signer.load_from_authority x codec p
                (anchor_of x (new_authority x draw authority_id authority_tr n))
                later
                (new_signer x i id_sk tr_sk)
              ≡ (
                ok tt,
                record (new_signer x i id_sk tr_sk) {
                  taps_kp = some (draw i);
                  combiner_keys = some combiner_keys;
                },
              ))
    unfolding prepare_signer_package new_signer_package new_authority new_key_pairs anchor_of
        new_signer Signer.load_from_authority new_identity new_transport
    signer_bootstrap codec i combiner_keys faithful h es =
        let (p, sealed, opened) =
          open_secure-secure_package x.suite L codec faithful {E = Error} authority_id authority_tr
            tr_sk (record { my_kp = draw i; combiner_keys = combiner_keys }) plain random now later
            es short twelve le within in
        (p, ground (arith, sealed, get_elem?-draw_from 0 n i h), ground (arith, opened))

    -- The Combiner, given the package that the Authority prepares, loads within 60 seconds the
    -- Authority's configuration, provided that the rosters have an entry for each of the `n`
    -- signers and `n3` tracers. The key pair is the one drawn behind the signers' `n`, and the
    -- public keys are those of the signers' pairs, in order.
    pub combiner_bootstrap :
        (codec : Codec (CombinerPackage x)) (quo : x.Quorum) (t n3 te : ℕ)
        (signer_keys tracer_keys : List (ActorKeys x.suite))
        → IsFaithful codec
        → length signer_keys ≡ n
        → length tracer_keys ≡ n3
        → codec.serialize
            (new_combiner_package x (new_key_pairs x draw n) quo n t n3 te signer_keys tracer_keys)
          ≡ some plain
        → (p : SecurePackage x.suite) × (prepare_combiner_package x {E = Error} codec
              (new_authority x draw authority_id authority_tr n)
              quo
              n
              t
              n3
              te
              signer_keys
              tracer_keys
              (x.public_key tr_sk)
              random
              now
            ≡ ok p)
          × (Combiner.load_from_authority x codec p
                (anchor_of x (new_authority x draw authority_id authority_tr n))
                later
                (new_combiner x id_sk tr_sk)
              ≡ (
                ok tt,
                record (new_combiner x id_sk tr_sk) {
                  signer_keys = some signer_keys;
                  tracer_keys = some tracer_keys;
                  pk_i = some (map x.keypair_public (draw_from draw 0 n));
                  quorum = some quo;
                  n = some n;
                  t = some t;
                  n3 = some n3;
                  te = some te;
                  taps_kp = some (draw n);
                },
              ))
    unfolding prepare_combiner_package new_combiner_package new_authority new_key_pairs anchor_of
        signer_public_keys new_combiner Combiner.load_from_authority new_identity new_transport
    combiner_bootstrap codec quo t n3 te signer_keys tracer_keys faithful hn hn3 es =
        let (p, sealed, opened) =
          open_secure-secure_package x.suite L codec faithful {E = Error} authority_id authority_tr
            tr_sk
            (new_combiner_package x (new_key_pairs x draw n) quo n t n3 te signer_keys tracer_keys)
            plain random now later es short twelve le within in
        (p, ground (arith, sealed), ground (arith, opened, hn, hn3))

-- Tracer `i` of `n3`, given the package that the Authority prepares for it, loads within 60 seconds
-- the Authority's configuration, provided that its roster has an entry for each tracer. The number
-- of signers is that of the keys in the registry, `n`.
pub tracer_bootstrap :
    (x : Dkg) (draw : ℕ → x.KeyPair) (L : IsLawful x.suite)
    (authority_id authority_tr id_sk tr_sk : x.SecretKey) (plain random : Bytes)
    (now later n i n3 te t : ℕ) (combiner_keys : ActorKeys x.suite)
    (peers : List (ActorKeys x.suite)) (codec : Codec (TracerPackage x.taps))
    → IsFaithful codec
    → length plain ≤ x.max_plaintext
    → length random ≡ 12
    → now ≤ later
    → later ≤ now + 60
    → length peers ≡ n3
    → codec.serialize
        (new_tracer_package x.taps (new_key_pairs x.taps draw n) i n3 te t combiner_keys peers)
      ≡ some plain
    → (p : SecurePackage x.suite) × (prepare_tracer_package x.taps {E = Error} codec
          (new_authority x.taps draw authority_id authority_tr n)
          i
          n3
          te
          t
          combiner_keys
          peers
          (x.public_key tr_sk)
          random
          now
        ≡ ok p)
      × (Tracer.load_from_authority x codec p
            (anchor_of x.taps (new_authority x.taps draw authority_id authority_tr n))
            later
            (new_tracer x id_sk tr_sk)
          ≡ (
            ok tt,
            record (new_tracer x id_sk tr_sk) {
              index = some i;
              n3 = some n3;
              te = some te;
              n = some n;
              pk_i = some (map x.keypair_public (draw_from draw 0 n));
              pk_cs = some (x.keypair_public (draw n));
              t = some t;
              combiner_keys = some combiner_keys;
              peer_tracers = some peers;
            },
          ))
unfolding prepare_tracer_package new_tracer_package new_authority new_key_pairs anchor_of
    signer_public_keys new_tracer Tracer.load_from_authority new_identity new_transport
tracer_bootstrap x draw L authority_id authority_tr id_sk tr_sk plain random now later n i n3 te t
      combiner_keys peers codec faithful short twelve le within hp es =
    let (p, sealed, opened) =
      open_secure-secure_package x.suite L codec faithful {E = Error} authority_id authority_tr
        tr_sk
        (new_tracer_package x.taps (new_key_pairs x.taps draw n) i n3 te t combiner_keys peers)
        plain random now later es short twelve le within in
    (p, ground (arith, sealed), ground (arith, opened, hp, length-draw_from x.taps draw 0 n))

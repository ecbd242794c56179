-- ===== src/Authority/Defs.antt =====
-- src/authority.rs: the thresholds, the keys that the Authority makes, and its packages.
use simulation_taps_tt.Base.{
  ℕ, zero, suc, ◌+◌, ◌*◌, ◌/◌, ◌%◌, ◌^◌, List, [], ◌∷◌, map, Bytes, length, get_elem?,
}
use simulation_taps_tt.Base.Outcome.{Outcome, ok, expect, ◌>>=◌}
use simulation_taps_tt.Crypto.{
  Codec, SecurePackage, IdentityKeyPair, TransportKeyPair, new_identity, new_transport, ActorKeys,
  secure_package,
}
use simulation_taps_tt.Network.{AuthorityAnchor}
use simulation_taps_tt.Taps.{Taps}

unfoldable pub signer_threshold : ℕ → ℕ
signer_threshold n = n / 2 + 1

-- `2 * n3` is a 64-bit product.
unfoldable pub tracer_threshold : ℕ → ℕ
tracer_threshold n3 = ((2 * n3) % 2 ^ 64) / 3 + 1

pub record KeyPairs (x : Taps) : Type 0 where
  pub signers_keys : List x.KeyPair
  pub combiner_keys : x.KeyPair

pub record SignerPackage (x : Taps) : Type 0 where
  pub my_kp : x.KeyPair
  pub combiner_keys : ActorKeys x.suite

pub record CombinerPackage (x : Taps) : Type 0 where
  pub kp_cs : x.KeyPair
  pub pk_i : List x.PublicKey
  pub n : ℕ
  pub t : ℕ
  pub n3 : ℕ
  pub te : ℕ
  pub quo : x.Quorum
  pub signer_keys : List (ActorKeys x.suite)
  pub tracer_keys : List (ActorKeys x.suite)

pub record TracerPackage (x : Taps) : Type 0 where
  pub index : ℕ
  pub n3 : ℕ
  pub te : ℕ
  pub pk_i : List x.PublicKey
  pub pk_cs : x.PublicKey
  pub t : ℕ
  pub combiner_keys : ActorKeys x.suite
  pub peer_tracers : List (ActorKeys x.suite)

pub record Authority (x : Taps) : Type 0 where
  pub keys : KeyPairs x
  pub identity_kp : IdentityKeyPair x.suite
  pub transport_kp : TransportKeyPair x.suite

-- `draw i` is what the call number `i` of `KeyPair::create` returns.
unfoldable pub draw_from : {A : Type 0} → (ℕ → A) → ℕ → ℕ → List A
draw_from draw i zero = []
draw_from draw i (suc left) = draw i ∷ draw_from draw (suc i) left

module _ (x : Taps) where
  -- `KeyPairs::new`
  unfoldable pub new_key_pairs : (ℕ → x.KeyPair) → ℕ → KeyPairs x
  unfolding draw_from
  new_key_pairs draw n = record { signers_keys = draw_from draw 0 n; combiner_keys = draw n }

  unfoldable pub signer_public_keys : KeyPairs x → List x.PublicKey
  signer_public_keys keys = map x.keypair_public keys.signers_keys

  unfoldable pub set_quorum : KeyPairs x → ℕ → x.Seed → x.Quorum
  set_quorum keys t seed = x.choose_quorum (length keys.signers_keys) t keys.signers_keys seed

  -- `SignerPackage::new`; an index out of bounds panics.
  unfoldable pub new_signer_package :
      {E : Type 0} → KeyPairs x → ℕ → ActorKeys x.suite → Outcome E (SignerPackage x)
  new_signer_package keys index combiner_keys = do
    my_kp ← expect "index out of bounds" (get_elem? keys.signers_keys index)
    ok (record { my_kp = my_kp; combiner_keys = combiner_keys })

  -- `CombinerPackage::new`
  unfoldable pub new_combiner_package :
      KeyPairs x
      → x.Quorum
      → ℕ
      → ℕ
      → ℕ
      → ℕ
      → List (ActorKeys x.suite)
      → List (ActorKeys x.suite)
      → CombinerPackage x
  unfolding signer_public_keys
  new_combiner_package keys quo n t n3 te signer_keys tracer_keys = record {
    kp_cs = keys.combiner_keys;
    pk_i = signer_public_keys keys;
    n = n;
    t = t;
    n3 = n3;
    te = te;
    quo = quo;
    signer_keys = signer_keys;
    tracer_keys = tracer_keys;
  }

  -- `TracerPackage::new`
  unfoldable pub new_tracer_package :
      KeyPairs x → ℕ → ℕ → ℕ → ℕ → ActorKeys x.suite → List (ActorKeys x.suite) → TracerPackage x
  unfolding signer_public_keys
  new_tracer_package keys index n3 te t combiner_keys peer_tracers = record {
    index = index;
    n3 = n3;
    te = te;
    pk_i = signer_public_keys keys;
    pk_cs = x.keypair_public keys.combiner_keys;
    t = t;
    combiner_keys = combiner_keys;
    peer_tracers = peer_tracers;
  }

  -- `Authority::new`, with the two secret keys that it draws.
  unfoldable pub new_authority : (ℕ → x.KeyPair) → x.SecretKey → x.SecretKey → ℕ → Authority x
  unfolding new_key_pairs new_identity new_transport
  new_authority draw identity_sk transport_sk n = record {
    keys = new_key_pairs draw n;
    identity_kp = new_identity x.suite identity_sk;
    transport_kp = new_transport x.suite transport_sk;
  }

  -- `Authority::anchor`
  unfoldable pub anchor_of : Authority x → AuthorityAnchor x.suite
  anchor_of auth = record { identity_pk = auth.identity_kp.pk; transport_pk = auth.transport_kp.pk }

  -- The last two arguments of these are the random nonce and the clock.
  module _ {E : Type 0} where
    unfoldable pub prepare_signer_package :
        Codec (SignerPackage x)
        → Authority x
        → ℕ
        → ActorKeys x.suite
        → x.PublicKey
        → Bytes
        → ℕ
        → Outcome E (SecurePackage x.suite)
    unfolding new_signer_package
    prepare_signer_package codec auth index combiner_keys receiver_pk random now = do
      pkg ← new_signer_package auth.keys index combiner_keys
      secure_package x.suite codec auth.identity_kp auth.transport_kp receiver_pk pkg random now

    unfoldable pub prepare_combiner_package :
        Codec (CombinerPackage x)
        → Authority x
        → x.Quorum
        → ℕ
        → ℕ
        → ℕ
        → ℕ
        → List (ActorKeys x.suite)
        → List (ActorKeys x.suite)
        → x.PublicKey
        → Bytes
        → ℕ
        → Outcome E (SecurePackage x.suite)
    prepare_combiner_package codec auth quo n t n3 te signer_keys tracer_keys receiver_pk random
          now =
        secure_package x.suite codec auth.identity_kp auth.transport_kp receiver_pk
          (new_combiner_package auth.keys quo n t n3 te signer_keys tracer_keys) random now

    unfoldable pub prepare_tracer_package :
        Codec (TracerPackage x)
        → Authority x
        → ℕ
        → ℕ
        → ℕ
        → ℕ
        → ActorKeys x.suite
        → List (ActorKeys x.suite)
        → x.PublicKey
        → Bytes
        → ℕ
        → Outcome E (SecurePackage x.suite)
    prepare_tracer_package codec auth index n3 te t combiner_keys peer_tracers receiver_pk random
          now =
        secure_package x.suite codec auth.identity_kp auth.transport_kp receiver_pk
          (new_tracer_package auth.keys index n3 te t combiner_keys peer_tracers) random now

-- ===== src/Combiner/State.antt =====
-- The state of the Combiner.
use simulation_taps_tt.Base.{ℕ, Option, none, List, [], Bytes}
use simulation_taps_tt.Base.Map.{Map}
use simulation_taps_tt.Crypto.{
  IdentityKeyPair, TransportKeyPair, new_identity, new_transport, ActorKeys,
}
use simulation_taps_tt.Taps.{Taps}

pub record Combiner (x : Taps) : Type 0 where
  pub identity_kp : IdentityKeyPair x.suite
  pub transport_kp : TransportKeyPair x.suite
  pub signer_keys : Option (List (ActorKeys x.suite))
  pub tracer_keys : Option (List (ActorKeys x.suite))
  pub pk_i : Option (List x.PublicKey)
  pub quorum : Option x.Quorum
  pub n : Option ℕ
  pub t : Option ℕ
  pub n3 : Option ℕ
  pub te : Option ℕ
  pub taps_kp : Option x.KeyPair
  pub tracer_pks : Map x.Gt
  pub pk_e : Option x.PublicKey
  pub pk : Option x.PK
  pub commitments : Map x.Commitment
  pub sigmas : Map x.Sign
  -- the source's `T`, `C` and `R`
  pub t_cipher : Option x.Cipher
  pub c_cipher : Option x.Cipher
  pub r_point : Option x.PublicKey
  pub message : Option Bytes
  pub c : Option x.Scalar
  pub alpha : Option x.Scalar
  pub beta : Option x.Scalar
  pub w_z : Option x.Sign
  pub w_rho : Option x.Secret
  pub w_gamma : Option (List x.Secret)
  pub w_psi : Option x.Secret
  pub w_phi_i : Option x.Phis
  pub v0 : Option (List x.PublicKey)
  pub v_vec : Option (List x.PublicKey)
  pub blinds : Option x.Blinds
  pub hats : Option x.Hats
  pub proofs : Option x.Proofs

-- `Combiner::new`, with the two secret keys that it draws.
unfoldable pub new_combiner : (x : Taps) → x.SecretKey → x.SecretKey → Combiner x
unfolding new_identity new_transport
new_combiner x identity_sk transport_sk = record {
  identity_kp = new_identity x.suite identity_sk;
  transport_kp = new_transport x.suite transport_sk;
  signer_keys = none;
  tracer_keys = none;
  pk_i = none;
  quorum = none;
  n = none;
  t = none;
  n3 = none;
  te = none;
  taps_kp = none;
  tracer_pks = [];
  pk_e = none;
  pk = none;
  commitments = [];
  sigmas = [];
  t_cipher = none;
  c_cipher = none;
  r_point = none;
  message = none;
  c = none;
  alpha = none;
  beta = none;
  w_z = none;
  w_rho = none;
  w_gamma = none;
  w_psi = none;
  w_phi_i = none;
  v0 = none;
  v_vec = none;
  blinds = none;
  hats = none;
  proofs = none;
}

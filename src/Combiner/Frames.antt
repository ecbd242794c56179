-- ===== src/Combiner/Frames.antt =====
-- The steps of the Combiner that leave alone what is on file under ids.
use simulation_taps_tt.Base.{ℕ, ◌≡◌, Bytes, arith}
use simulation_taps_tt.Crypto.{Codec}
use simulation_taps_tt.Taps.{Taps}
use simulation_taps_tt.Payloads.{SignerPackage, TracerPackage}
use simulation_taps_tt.Combiner.State.{Combiner}
use simulation_taps_tt.Combiner.GroupKey.{finalize_group_key}
use simulation_taps_tt.Combiner.Signing.{
  compute_aggregated_nonce, encrypt_threshold, compute_parameters, compute_aggregated_sign,
  compute_encrypted_signature,
}
use simulation_taps_tt.Combiner.Proving.{
  statement, compute_alpha, compute_beta, compute_phis, compute_encrypted_bits, compute_blinds,
  compute_proofs, compute_hats, construct_pi, construct_sigma, sign_package, prepare_signer_package,
  prepare_tracer_package,
}
use simulation_taps_tt.Combiner.Provenance.{filed}

module _ (x : Taps) (s : Combiner x) where
  pub compute_aggregated_nonce_keeps : filed x (compute_aggregated_nonce x s).1 ≡ filed x s
  unfolding compute_aggregated_nonce
  compute_aggregated_nonce_keeps = ground arith

  pub encrypt_threshold_keeps : (psi : x.Secret) → filed x (encrypt_threshold x psi s).1 ≡ filed x s
  unfolding encrypt_threshold
  encrypt_threshold_keeps psi = ground arith

  pub compute_parameters_keeps :
      (text : Bytes) → filed x (compute_parameters x text s).1 ≡ filed x s
  unfolding compute_parameters
  compute_parameters_keeps text = ground arith

  pub compute_aggregated_sign_keeps : filed x (compute_aggregated_sign x s).1 ≡ filed x s
  unfolding compute_aggregated_sign
  compute_aggregated_sign_keeps = ground arith

  pub compute_encrypted_signature_keeps :
      (rho : x.Secret) → filed x (compute_encrypted_signature x rho s).1 ≡ filed x s
  unfolding compute_encrypted_signature
  compute_encrypted_signature_keeps rho = ground arith

  pub compute_encrypted_bits_keeps :
      (seed : x.Seed) → filed x (compute_encrypted_bits x seed s).1 ≡ filed x s
  unfolding compute_encrypted_bits
  compute_encrypted_bits_keeps seed = ground arith

  pub compute_alpha_keeps : filed x (compute_alpha x s).1 ≡ filed x s
  unfolding compute_alpha statement
  compute_alpha_keeps = ground arith

  pub compute_phis_keeps : filed x (compute_phis x s).1 ≡ filed x s
  unfolding compute_phis
  compute_phis_keeps = ground arith

  pub compute_blinds_keeps :
      (n : ℕ) (seed : x.Seed) → filed x (compute_blinds x n seed s).1 ≡ filed x s
  unfolding compute_blinds
  compute_blinds_keeps n seed = ground arith

  pub compute_proofs_keeps : filed x (compute_proofs x s).1 ≡ filed x s
  unfolding compute_proofs
  compute_proofs_keeps = ground arith

  pub compute_beta_keeps : filed x (compute_beta x s).1 ≡ filed x s
  unfolding compute_beta statement
  compute_beta_keeps = ground arith

  pub compute_hats_keeps : filed x (compute_hats x s).1 ≡ filed x s
  unfolding compute_hats
  compute_hats_keeps = ground arith

  pub construct_sigma_keeps : (text : Bytes) → filed x (construct_sigma x text s).1 ≡ filed x s
  unfolding construct_sigma construct_pi
  construct_sigma_keeps text = ground arith

  pub prepare_signer_package_keeps :
      (codec : Codec (SignerPackage x)) (nonce : Bytes) (now : ℕ)
      → filed x (prepare_signer_package x codec nonce now s).1 ≡ filed x s
  unfolding prepare_signer_package sign_package
  prepare_signer_package_keeps codec nonce now = ground arith

  pub prepare_tracer_package_keeps :
      (codec : Codec (TracerPackage x)) (sigma : x.Sigma) (text nonce : Bytes) (now : ℕ)
      → filed x (prepare_tracer_package x codec sigma text nonce now s).1 ≡ filed x s
  unfolding prepare_tracer_package sign_package
  prepare_tracer_package_keeps codec sigma text nonce now = ground arith

  pub finalize_group_key_keeps : filed x (finalize_group_key x s).1 ≡ filed x s
  unfolding finalize_group_key
  finalize_group_key_keeps = ground arith

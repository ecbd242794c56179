-- ===== src/Combiner/Phases.antt =====
-- The phases of src/bin/combiner.rs that change nothing on file under ids.
use simulation_taps_tt.Base.{ℕ, ◌≡◌, sym, subst, Bytes}
use simulation_taps_tt.Base.Outcome.{ok}
use simulation_taps_tt.Base.Action.{Action, lift, ◌>>=◌, ◌>>◌}
use simulation_taps_tt.Base.Action.Keeps.{Keeps-bind}
use simulation_taps_tt.Crypto.{Codec, BroadcastPackage, Error}
use simulation_taps_tt.Taps.{Taps}
use simulation_taps_tt.Payloads.{SignerPackage, TracerPackage}
use simulation_taps_tt.Combiner.State.{Combiner}
use simulation_taps_tt.Combiner.Signing.{
  compute_aggregated_nonce, encrypt_threshold, compute_parameters, compute_aggregated_sign,
  compute_encrypted_signature,
}
use simulation_taps_tt.Combiner.Proving.{
  compute_alpha, compute_beta, compute_phis, compute_encrypted_bits, compute_blinds, compute_proofs,
  compute_hats, construct_sigma, prepare_signer_package, prepare_tracer_package,
}
use simulation_taps_tt.Combiner.Node.{Randomness, challenge_phase, attestation_phase}
use simulation_taps_tt.Combiner.Provenance.{Filed, filed}
use simulation_taps_tt.Combiner.Frames.{
  compute_aggregated_nonce_keeps, encrypt_threshold_keeps, compute_parameters_keeps,
  compute_aggregated_sign_keeps, compute_encrypted_signature_keeps, compute_encrypted_bits_keeps,
  compute_alpha_keeps, compute_phis_keeps, compute_blinds_keeps, compute_proofs_keeps,
  compute_beta_keeps, compute_hats_keeps, construct_sigma_keeps, prepare_signer_package_keeps,
  prepare_tracer_package_keeps,
}

module _ (x : Taps) (I : Filed x → Type 0) where
  -- A step that keeps what is on file, and what follows it.
  then_keeps :
      {A B : Type 0} (m : Action (Combiner x) Error A) (f : A → Action (Combiner x) Error B)
      (s : Combiner x)
      → filed x (m s).1 ≡ filed x s
      → ((a : A) (s' : Combiner x) → I (filed x s') → I (filed x (f a s').1))
      → I (filed x s)
      → I (filed x ((m >>= f) s).1)
  then_keeps m f s same k i =
      Keeps-bind (λ s'. I (filed x s')) (λ s'. I (filed x s')) m f s (λ _ i'. i')
        (subst I (sym same) i) k

  module _ (random : Randomness x) (text : Bytes) (now : ℕ) where
    pub challenge_phase_keeps :
        (codec : Codec (SignerPackage x)) (s : Combiner x)
        → I (filed x s)
        → I (filed x (challenge_phase x codec random text now s).1)
    unfolding challenge_phase
    challenge_phase_keeps codec s =
        then_keeps (compute_aggregated_nonce x) (λ _. after1) s (compute_aggregated_nonce_keeps x s)
          λ _ s1.
            then_keeps (encrypt_threshold x random.psi) (λ _. after2) s1
              (encrypt_threshold_keeps x s1 random.psi)
              λ _ s2.
                then_keeps (compute_parameters x text) (λ _. after3) s2
                  (compute_parameters_keeps x s2 text)
                  λ _ s3 i.
                    subst I
                      (sym (prepare_signer_package_keeps x s3 codec random.challenge_nonce now)) i
      where
        after3 : Action (Combiner x) Error (BroadcastPackage x.suite)
        after3 = prepare_signer_package x codec random.challenge_nonce now

        after2 : Action (Combiner x) Error (BroadcastPackage x.suite)
        after2 = compute_parameters x text >> after3

        after1 : Action (Combiner x) Error (BroadcastPackage x.suite)
        after1 = encrypt_threshold x random.psi >> after2

    -- The steps of the attestation from the last one up, each with what follows it.
    abbrev Attesting : Type 0
    Attesting = Action (Combiner x) Error (x.Sigma × BroadcastPackage x.suite)

    module _ (codec : Codec (TracerPackage x)) (n_signers : ℕ) where
      abbrev packing : x.Sigma → Attesting
      packing sigma =
          prepare_tracer_package x codec sigma text random.attestation_nonce now >>= λ p.
          lift (ok (sigma, p))

      abbrev constructing : Attesting
      constructing = construct_sigma x text >>= packing

      abbrev from_hats : Attesting
      from_hats = compute_hats x >> constructing

      abbrev from_beta : Attesting
      from_beta = compute_beta x >> from_hats

      abbrev from_proofs : Attesting
      from_proofs = compute_proofs x >> from_beta

      abbrev from_blinds : Attesting
      from_blinds = compute_blinds x n_signers random.blinds_seed >> from_proofs

      abbrev from_phis : Attesting
      from_phis = compute_phis x >> from_blinds

      abbrev from_alpha : Attesting
      from_alpha = compute_alpha x >> from_phis

      abbrev from_bits : Attesting
      from_bits = compute_encrypted_bits x random.bits_seed >> from_alpha

      abbrev from_encrypting : Attesting
      from_encrypting = compute_encrypted_signature x random.rho >> from_bits

      constructing_keeps : (s : Combiner x) → I (filed x s) → I (filed x (constructing s).1)
      constructing_keeps s =
          then_keeps (construct_sigma x text) packing s (construct_sigma_keeps x s text) λ sigma s'.
            then_keeps (prepare_tracer_package x codec sigma text random.attestation_nonce now)
              (λ p. lift (ok (sigma, p))) s'
              (prepare_tracer_package_keeps x s' codec sigma text random.attestation_nonce now)
              λ _ _ i. i

      from_blinds_keeps : (s : Combiner x) → I (filed x s) → I (filed x (from_blinds s).1)
      from_blinds_keeps s =
          then_keeps (compute_blinds x n_signers random.blinds_seed) (λ _. from_proofs) s
            (compute_blinds_keeps x s n_signers random.blinds_seed)
            λ _ s5.
              then_keeps (compute_proofs x) (λ _. from_beta) s5 (compute_proofs_keeps x s5)
                λ _ s6.
                  then_keeps (compute_beta x) (λ _. from_hats) s6 (compute_beta_keeps x s6)
                    λ _ s7.
                      then_keeps (compute_hats x) (λ _. constructing) s7 (compute_hats_keeps x s7)
                        λ _ s8. constructing_keeps s8

      pub attestation_phase_keeps :
          (s : Combiner x)
          → I (filed x s)
          → I (filed x (attestation_phase x codec random text n_signers now s).1)
      unfolding attestation_phase
      attestation_phase_keeps s =
          then_keeps (compute_aggregated_sign x) (λ _. from_encrypting) s
            (compute_aggregated_sign_keeps x s)
            λ _ s0.
              then_keeps (compute_encrypted_signature x random.rho) (λ _. from_bits) s0
                (compute_encrypted_signature_keeps x s0 random.rho)
                λ _ s1.
                  then_keeps (compute_encrypted_bits x random.bits_seed) (λ _. from_alpha) s1
                    (compute_encrypted_bits_keeps x s1 random.bits_seed)
                    λ _ s2.
                      then_keeps (compute_alpha x) (λ _. from_phis) s2 (compute_alpha_keeps x s2)
                        λ _ s3.
                          then_keeps (compute_phis x) (λ _. from_blinds) s3
                            (compute_phis_keeps x s3) λ _ s4. from_blinds_keeps s4

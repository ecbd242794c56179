-- ===== src/Combiner/Pipeline.antt =====
-- The phases, run in the order of `main`: no `expect` fails, and what is sent is about one
-- statement.
use simulation_taps_tt.Base.{
  ℕ, ◌%◌, ◌^◌, ◌<◌, ◌≡◌, some, List, map, ◌++◌, Bytes, length, replicate, arith,
}
use native.Mathlib.Nat.{mod-eq_of_lt}
use simulation_taps_tt.Base.Outcome.{ok}
use simulation_taps_tt.Crypto.{Codec, BroadcastPackage, Error, be_bytes, sign_broadcast}
use simulation_taps_tt.Crypto.NoPanic.{IsTotal, signs_broadcast}
use simulation_taps_tt.Taps.{Taps, HasSmallScalars}
use simulation_taps_tt.Payloads.{SignerPackage, TracerPackage}
use simulation_taps_tt.Combiner.State.{Combiner}
use simulation_taps_tt.Combiner.Gathering.{
  Lists, compute_aggregated_nonce_all, compute_aggregated_sign_all,
}
use simulation_taps_tt.Combiner.Signing.{
  encrypt_threshold, compute_parameters, compute_encrypted_signature,
}
use simulation_taps_tt.Combiner.Proving.{
  StatementOf, compute_alpha, compute_beta, compute_phis, compute_encrypted_bits, compute_blinds,
  compute_proofs, compute_hats, construct_sigma, prepare_signer_package, prepare_tracer_package,
}
use simulation_taps_tt.Combiner.Node.{Randomness, challenge_phase, attestation_phase}

module _ (x : Taps) (s : Combiner x) (random : Randomness x) (text : Bytes) where
  -- How the phase up to the challenge ends, and the state behind it.
  pub challenge_phase_runs :
      HasSmallScalars x
      → (codec : Codec (SignerPackage x)) (q : x.Quorum) (t now : ℕ) (pk : x.PK)
        (comms : List x.Commitment) (r : x.PublicKey)
      → s.quorum ≡ some q
      → s.n ≡ some (length comms)
      → s.t ≡ some t
      → t < 2 ^ 64
      → s.pk ≡ some pk
      → Lists s.commitments 0 comms
      → x.aggregate_commitments comms q ≡ ok r
      → (t_scalar : x.Scalar) × (x.scalar_from_be_bytes (replicate 24 0 ++ be_bytes 8 t)
          ≡ some t_scalar)
        × (let t_cipher = x.encrypt_value random.psi t_scalar in
            let c = x.compute_challenge_c pk t_cipher r text in
            challenge_phase x codec random text now s ≡ (
              sign_broadcast x.suite codec s.identity_kp
                  (record { r_point = r; c = c })
                  random.challenge_nonce
                  now,
              record s {
                r_point = some r;
                w_psi = some random.psi;
                t_cipher = some t_cipher;
                c = some c;
                message = some text;
              },
            ))
  unfolding challenge_phase encrypt_threshold compute_parameters prepare_signer_package
  challenge_phase_runs small codec q t now pk comms r eq en et bound ep h ea =
      let (t_scalar, e) = small t bound in
      let e' : x.scalar_from_be_bytes (replicate 24 0 ++ be_bytes 8 (t % 2 ^ 64)) ≡ some t_scalar =
        rw (mod-eq_of_lt bound) e in
      (t_scalar, e, ground (arith, compute_aggregated_nonce_all x s q comms eq en h ea, et, ep, e'))

  -- In a state with the configuration, the registry, and a commitment of every signer on file,
  -- which the crate's `aggregate_commitments` joins, in the order of the ids, to `r`, with a codec
  -- that serialises every challenge, and with a threshold of 64 bits and a crate that reads such
  -- numbers as scalars, the phase up to the challenge never fails: it returns the package that the
  -- Combiner signs for `r` and the challenge that is derived from the registry, the encrypted
  -- threshold, `r` and the message, and it keeps just these.
  pub challenge_phase_lem :
      HasSmallScalars x
      → (codec : Codec (SignerPackage x)) → IsTotal codec
      → (q : x.Quorum) (t now : ℕ) (pk : x.PK) (comms : List x.Commitment) (r : x.PublicKey)
      → s.quorum ≡ some q
      → s.n ≡ some (length comms)
      → s.t ≡ some t
      → t < 2 ^ 64
      → s.pk ≡ some pk
      → Lists s.commitments 0 comms
      → x.aggregate_commitments comms q ≡ ok r
      → (t_scalar : x.Scalar) × (challenge : BroadcastPackage x.suite) × (x.scalar_from_be_bytes
            (replicate 24 0 ++ be_bytes 8 t)
          ≡ some t_scalar)
        × (let t_cipher = x.encrypt_value random.psi t_scalar in
            let c = x.compute_challenge_c pk t_cipher r text in
            (sign_broadcast x.suite {E = Error} codec s.identity_kp
                (record { r_point = r; c = c })
                random.challenge_nonce
                now
              ≡ ok challenge)
            × (challenge_phase x codec random text now s ≡ (
              ok challenge,
              record s {
                r_point = some r;
                w_psi = some random.psi;
                t_cipher = some t_cipher;
                c = some c;
                message = some text;
              },
            )))
  challenge_phase_lem small codec total q t now pk comms r eq en et bound ep h ea =
      let (t_scalar, e, runs) =
        challenge_phase_runs small codec q t now pk comms r eq en et bound ep h ea in
      let t_cipher = x.encrypt_value random.psi t_scalar in
      let payload : SignerPackage x = record {
        r_point = r;
        c = x.compute_challenge_c pk t_cipher r text;
      } in
      let (challenge, signed) =
        signs_broadcast x.suite codec s.identity_kp total payload random.challenge_nonce now in
      (t_scalar, challenge, e, (signed, rw signed at runs))

  -- What the attestation is made of, from the state in which the phase begins.
  module _ (q : x.Quorum) (pk : x.PK) (pk_e r : x.PublicKey) (kp : x.KeyPair) (t_cipher : x.Cipher)
      (c : x.Scalar) (signs : List x.Sign) (n_signers : ℕ) where
    abbrev attested_z : x.Sign
    attested_z = x.aggregate_signs signs q

    abbrev pub attested_bits : List x.Secret × List x.Cipher
    attested_bits = x.encrypt_bits_threshold q pk_e random.bits_seed

    -- The statement of the proof.
    abbrev pub attested : StatementOf x
    attested = record {
      pk = pk;
      t_cipher = t_cipher;
      r_point = r;
      m = text;
      ct = x.encrypt random.rho attested_z pk;
      v0 = map x.c0 attested_bits.1;
      v = map x.c1 attested_bits.1;
    }

    abbrev attested_alpha : x.Scalar
    attested_alpha = x.statement_alpha attested c

    abbrev attested_blinds : x.Blinds
    attested_blinds = x.blinds_set n_signers random.blinds_seed

    abbrev pub attested_proofs : x.Proofs
    attested_proofs = x.compute_proofs attested_blinds pk pk_e attested.v c attested_alpha

    abbrev attested_beta : x.Scalar
    attested_beta = x.statement_beta attested attested_alpha attested_proofs

    abbrev attested_hats : x.Hats
    attested_hats =
        x.hats_set attested_beta
          (x.witnesses_set attested_z random.rho attested_bits.0 random.psi q
            (x.phis_set attested_alpha attested_bits.0 q))
          attested_blinds

    abbrev pub attested_sigma : x.Sigma
    attested_sigma = x.sigma_sign kp text r attested.ct (x.make_pi attested_beta attested_hats)

    -- After the challenge, with a share of every signer on file, and if the package at its end can
    -- be signed (it serialises), the last phase never fails. Its alpha, proofs and beta are all
    -- about one statement, `attested`, and the package that goes to the tracers carries that
    -- statement's `T`, `v0`, `v` and `m`, the proofs, and a signature over its `R` and ciphertext.
    pub attestation_phase_lem :
        (codec : Codec (TracerPackage x)) (now : ℕ) {p : BroadcastPackage x.suite}
        → s.quorum ≡ some q
        → s.n ≡ some (length signs)
        → s.pk ≡ some pk
        → s.pk_e ≡ some pk_e
        → s.taps_kp ≡ some kp
        → s.t_cipher ≡ some t_cipher
        → s.w_psi ≡ some random.psi
        → s.r_point ≡ some r
        → s.c ≡ some c
        → s.message ≡ some text
        → Lists s.sigmas 0 signs
        → sign_broadcast x.suite {E = Error} codec s.identity_kp
            (record {
              t_cipher = t_cipher;
              v0 = attested.v0;
              v_vec = attested.v;
              proof = attested_proofs;
              sigma = attested_sigma;
              m = text;
            })
            random.attestation_nonce
            now
          ≡ ok p
        → (attestation_phase x codec random text n_signers now s).0 ≡ ok (attested_sigma, p)
    unfolding attestation_phase compute_encrypted_signature compute_encrypted_bits compute_alpha
        compute_phis compute_blinds compute_proofs compute_beta compute_hats construct_sigma
        prepare_tracer_package
    attestation_phase_lem codec now eq en ep epe ek et eps er ec em h sealed = ground (
      arith,
      compute_aggregated_sign_all x s q signs eq en h,
      eq,
      ep,
      epe,
      ek,
      et,
      eps,
      er,
      ec,
      em,
      sealed,
    )

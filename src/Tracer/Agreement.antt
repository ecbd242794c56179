-- ===== src/Tracer/Agreement.antt =====
-- The Combiner proves, and the tracers check, one statement.
use simulation_taps_tt.Base.{ℕ, ◌+◌, ◌≤◌, ◌≡◌, true, some, List, Bytes, length, arith}
use simulation_taps_tt.Base.Outcome.{ok}
use simulation_taps_tt.Crypto.{
  IsLawful, Codec, IsFaithful, BroadcastPackage, Error, ActorKeys, new_identity,
}
use simulation_taps_tt.Crypto.RoundTrip.{open_broadcast-sign_broadcast}
use simulation_taps_tt.Taps.{Statement}
use simulation_taps_tt.Dkg.{Dkg, TracerError}
use simulation_taps_tt.Payloads.{TracerPackage}
use simulation_taps_tt.Combiner.{Combiner, Randomness, attestation_phase}
use simulation_taps_tt.Combiner.Gathering.{Lists}
use simulation_taps_tt.Combiner.Pipeline.{
  attested, attested_proofs, attested_sigma, attestation_phase_lem,
}
use simulation_taps_tt.Tracer.State.{Tracer}
use simulation_taps_tt.Tracer.Tracing.{
  load_from_combiner, statement, challenge_c, verify_sigma, verify_proof,
}
use simulation_taps_tt.Tracer.Node.{check_attestation}

module _ (x : Dkg) (L : IsLawful x.suite) (codec : Codec (TracerPackage x.taps))
    (faithful : IsFaithful codec) (s : Combiner x.taps) (random : Randomness x.taps) (text : Bytes)
    (q : x.Quorum) (pk : x.PK) (pk_e r : x.PublicKey) (kp : x.KeyPair) (t_cipher : x.Cipher)
    (c : x.Scalar) (signs : List x.Sign) (n_signers : ℕ) where
  abbrev proved : Statement x.PK x.Cipher x.PublicKey
  proved = attested x.taps s random text q pk pk_e r kp t_cipher c signs n_signers

  abbrev proofs : x.Proofs
  proofs = attested_proofs x.taps s random text q pk pk_e r kp t_cipher c signs n_signers

  abbrev signature : x.Sigma
  signature = attested_sigma x.taps s random text q pk pk_e r kp t_cipher c signs n_signers

  -- The Combiner, after the challenge and with a share of every signer on file, attests; a tracer
  -- that knows the Combiner's identity key and has the same registry loads the broadcast within 60
  -- seconds. If the signature carries its nonce and ciphertext, the statement that the tracer
  -- rebuilds is the one that the Combiner proved, with the same challenge; so if the signature and
  -- the proofs verify for that statement, the tracer accepts the attestation.
  pub attestation_agreement :
      (v : Tracer x) (keys : ActorKeys x.suite) (sk : x.SecretKey) (bytes : Bytes) (now later : ℕ)
      → s.quorum ≡ some q
      → s.n ≡ some (length signs)
      → s.pk ≡ some pk
      → s.pk_e ≡ some pk_e
      → s.taps_kp ≡ some kp
      → s.t_cipher ≡ some t_cipher
      → s.w_psi ≡ some random.psi
      → s.r_point ≡ some r
      → s.c ≡ some c
      → s.message ≡ some text
      → Lists s.sigmas 0 signs
      → s.identity_kp ≡ new_identity x.suite sk
      → codec.serialize (record {
        t_cipher = t_cipher;
        v0 = proved.v0;
        v_vec = proved.v;
        proof = proofs;
        sigma = signature;
        m = text;
      })
        ≡ some bytes
      → now ≤ later
      → later ≤ now + 60
      → v.combiner_keys ≡ some keys
      → keys.identity_pk ≡ x.public_key sk
      → v.pk ≡ some pk
      → x.sigma_r signature ≡ r
      → x.sigma_ct signature ≡ proved.ct
      → x.sigma_verify pk text signature ≡ ok true
      → x.proofs_verify proofs signature proved ≡ ok true
      → (p : BroadcastPackage x.suite) × ((attestation_phase x.taps codec random text n_signers now
            s).0
          ≡ ok (signature, p))
        × (let (result, v') = load_from_combiner x codec p later v in
            (result ≡ ok tt)
            × (statement x {E = TracerError} v' signature ≡ ok proved)
            × (challenge_c x {E = TracerError} v' ≡ ok (x.statement_c proved))
            × (check_attestation x v' ≡ ok tt))
  unfolding load_from_combiner statement challenge_c verify_sigma verify_proof check_attestation
  attestation_agreement v keys sk bytes now later eq en ep epe ek et eps er ec em h ei es le within
        evk ekk evp esr esc good_sigma good_proofs =
      let (p, sealed, opened) =
        open_broadcast-sign_broadcast x.suite L codec faithful {E = Error} sk _ bytes
          random.attestation_nonce now later es le within in
      (
        p,
        attestation_phase_lem x.taps s random text q pk pk_e r kp t_cipher c signs n_signers codec
            now eq en ep epe ek et eps er ec em h (rw ei sealed),
        (
          ground (arith, evk, ekk, opened),
          ground (arith, evk, ekk, opened, evp, esr, esc),
          ground (arith, evk, ekk, opened, evp, esr, esc),
          ground (arith, evk, ekk, opened, evp, esr, esc, good_sigma, good_proofs),
        ),
      )

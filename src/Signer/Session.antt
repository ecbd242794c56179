-- ===== src/Signer/Session.antt =====
-- A whole run of src/bin/signer.rs.
use simulation_taps_tt.Base.{◌≡◌, refl, ◌⊎◌, true, some, inl, inr, Bool-cases, Option-cases, arith}
use simulation_taps_tt.Base.Outcome.{Outcome, ok, err, panic, Outcome-cases}
use simulation_taps_tt.Crypto.{
  Codec, SecurePackage, BroadcastPackage, Error, verify_broadcast_data, open_secure,
}
use simulation_taps_tt.Network.{AuthorityAnchor, Message, hello, secure, broadcast}
use simulation_taps_tt.Taps.{Taps}
use simulation_taps_tt.Authority
use simulation_taps_tt.Payloads.{SignerPackage, CommitmentPackage, SigmaPackage}
use simulation_taps_tt.Combiner.{NodeError, message}
use simulation_taps_tt.Signer.Defs.{
  Signer, secure_package, load_from_authority, combiner_keys_of, set_commitment, set_sigma,
}
use simulation_taps_tt.Signer.Node.{Draws, answer, run}

module _ (x : Taps) (config_codec : Codec (Authority.SignerPackage x))
    (commitment_codec : Codec (CommitmentPackage x)) (challenge_codec : Codec (SignerPackage x))
    (sigma_codec : Codec (SigmaPackage x)) (draws : Draws x) (anchor : AuthorityAnchor x.suite)
    (s : Signer x) where
  -- What stands behind the two messages of a signer.
  pub record IsSession (credentials challenge first second : Message x.suite) : Type 0 where
    pub delivered : SecurePackage x.suite
    pub config : Authority.SignerPackage x
    pub signed : BroadcastPackage x.suite
    pub payload : SignerPackage x
    pub commitment_package : SecurePackage x.suite
    pub sigma_package : SecurePackage x.suite
    pub came : credentials ≡ secure delivered
    pub opened :
        open_secure x.suite config_codec s.transport_kp
          (record { identity_pk = anchor.identity_pk; transport_pk = anchor.transport_pk })
          delivered
          draws.bootstrap_time
        ≡ ok config
    pub challenged : challenge ≡ broadcast signed
    pub verified :
        verify_broadcast_data x.suite config.combiner_keys.identity_pk signed draws.sigma_time
        ≡ true
    pub read : challenge_codec.deserialize signed.text ≡ some payload
    pub first_sent : first ≡ secure commitment_package
    pub committed :
        secure_package x {E = Error} commitment_codec s
          (record { commitment = x.commitment_set draws.commit })
          config.combiner_keys.transport_pk
          draws.commitment_nonce
          draws.commitment_time
        ≡ ok commitment_package
    pub second_sent : second ≡ secure sigma_package
    pub shared :
        secure_package x {E = Error} sigma_codec s
          (record { z = x.sign draws.commit config.my_kp payload.c })
          config.combiner_keys.transport_pk
          draws.sigma_nonce
          draws.sigma_time
        ≡ ok sigma_package

  not_broadcast :
      (m : Message x.suite) (s1 : Signer x)
      → ((q : BroadcastPackage x.suite) × (m ≡ broadcast q))
        ⊎ (answer x challenge_codec sigma_codec m draws.sigma_nonce draws.sigma_time s1
            ≡ (err (message "Expected SignerPackage from Combiner"), s1))
  unfolding answer
  not_broadcast (hello _ _ _ _) s1 = inr refl
  not_broadcast (secure _) s1 = inr refl
  not_broadcast (broadcast q) s1 = inl (q, refl)

  abbrev ready : Authority.SignerPackage x → Signer x
  ready config = record s {
    taps_kp = some config.my_kp;
    combiner_keys = some config.combiner_keys;
    current_commitment = some draws.commit;
  }

  -- What the run makes of the answer.
  abbrev after :
      SecurePackage x.suite
      → Outcome NodeError (Message x.suite) × Signer x
      → Outcome NodeError (Message x.suite × Message x.suite) × Signer x
  after p1 (r, s') = elim r [
    | ok m ↦ (ok (secure p1, m), s')
    | err e ↦ (err e, s')
    | panic t ↦ (panic t, s')
  ]

  -- The same from the answer to the challenge on.
  answered :
      (p : SecurePackage x.suite) (config : Authority.SignerPackage x) (p1 : SecurePackage x.suite)
      (challenge first second : Message x.suite) (s' : Signer x) (q : BroadcastPackage x.suite)
      → open_secure x.suite config_codec s.transport_kp
          (record { identity_pk = anchor.identity_pk; transport_pk = anchor.transport_pk })
          p
          draws.bootstrap_time
        ≡ ok config
      → secure_package x {E = Error} commitment_codec s
          (record { commitment = x.commitment_set draws.commit })
          config.combiner_keys.transport_pk
          draws.commitment_nonce
          draws.commitment_time
        ≡ ok p1
      → challenge ≡ broadcast q
      → after p1 (
          answer x challenge_codec sigma_codec challenge draws.sigma_nonce draws.sigma_time
            (ready config))
        ≡ (ok (first, second), s')
      → IsSession (secure p) challenge first second
  unfolding answer set_sigma combiner_keys_of secure_package
  answered p config p1 challenge first second s' q e1 e2 e3 h =
      elim (Bool-cases
        (verify_broadcast_data x.suite config.combiner_keys.identity_pk q draws.sigma_time)) [
          | inr e4 ↦ absurd (ground (arith, h, e3, e4))
          | inl e4 ↦ elim (Option-cases (challenge_codec.deserialize q.text)) [
            | inl e5 ↦ absurd (ground (arith, h, e3, e4, e5))
            | inr (payload, e5) ↦
                elim (Outcome-cases (
                  secure_package x {E = Error} sigma_codec s
                    (record { z = x.sign draws.commit config.my_kp payload.c })
                    config.combiner_keys.transport_pk draws.sigma_nonce draws.sigma_time)) [
                      | inr (inl (_, e6)) ↦ absurd (ground (arith, h, e3, e4, e5, e6))
                      | inr (inr (_, e6)) ↦ absurd (ground (arith, h, e3, e4, e5, e6))
                      | inl (p2, e6) ↦ record {
                        delivered = p;
                        config = config;
                        signed = q;
                        payload = payload;
                        commitment_package = p1;
                        sigma_package = p2;
                        came = refl;
                        opened = e1;
                        challenged = e3;
                        verified = e4;
                        read = e5;
                        first_sent = ground (arith, h, e3, e4, e5, e6);
                        committed = e2;
                        second_sent = ground (arith, h, e3, e4, e5, e6);
                        shared = e6;
                      }
                    ]
          ]
        ]

  -- If a signer's run succeeds, the credentials opened, fresh, under the pinned keys of the
  -- Authority, and the challenge verifies, fresh, under the Combiner's key that they name. The two
  -- messages that the signer sends are sealed for that Combiner: the commitment to the nonces that
  -- were drawn, and the share that the key pair of the credentials makes of the same nonces and of
  -- the challenge.
  pub run_authentic :
      (credentials challenge first second : Message x.suite) (s' : Signer x)
      → run x config_codec commitment_codec challenge_codec sigma_codec draws anchor credentials
          challenge s
        ≡ (ok (first, second), s')
      → IsSession credentials challenge first second
  unfolding run load_from_authority set_commitment set_sigma combiner_keys_of secure_package
  run_authentic (hello _ _ _ _) challenge first second s' h = absurd (ground (arith, h))
  run_authentic (broadcast _) challenge first second s' h = absurd (ground (arith, h))
  run_authentic (secure p) challenge first second s' h =
      elim (Outcome-cases (
        open_secure x.suite config_codec s.transport_kp
          (record { identity_pk = anchor.identity_pk; transport_pk = anchor.transport_pk }) p
          draws.bootstrap_time)) [
            | inr (inl (_, e1)) ↦ absurd (ground (arith, h, e1))
            | inr (inr (_, e1)) ↦ absurd (ground (arith, h, e1))
            | inl (config, e1) ↦
                elim (Outcome-cases (
                  secure_package x {E = Error} commitment_codec s
                    (record { commitment = x.commitment_set draws.commit })
                    config.combiner_keys.transport_pk draws.commitment_nonce
                    draws.commitment_time)) [
                      | inr (inl (_, e2)) ↦ absurd (ground (arith, h, e1, e2))
                      | inr (inr (_, e2)) ↦ absurd (ground (arith, h, e1, e2))
                      | inl (p1, e2) ↦ elim (not_broadcast challenge (ready config)) [
                        | inr wrong ↦ absurd (ground (arith, h, e1, e2, wrong))
                        | inl (q, e3) ↦
                            answered p config p1 challenge first second s' q e1 e2 e3
                              (ground (arith, h, e1, e2))
                      ]
                    ]
          ]

-- ===== src/Tracer/Verified.antt =====
-- What a tracer's checks of the attestation and its report come down to.
use simulation_taps_tt.Base.{◌≡◌, true, false, some, Bytes, inl, inr, arith}
use simulation_taps_tt.Base.Outcome.{ok, Outcome-cases}
use simulation_taps_tt.Crypto.{SecurePackage, Error, ActorKeys, seal_bytes}
use simulation_taps_tt.Network.{Message, secure}
use simulation_taps_tt.Dkg.{Dkg}
use simulation_taps_tt.Tracer.State.{Tracer}
use simulation_taps_tt.Tracer.Peers.{secure_package_for_combiner}
use simulation_taps_tt.Tracer.KeyGeneration.{own_public_key}
use simulation_taps_tt.Tracer.Tracing.{statement, verify_sigma, verify_proof}
use simulation_taps_tt.Tracer.Traced.{statement_of}
use simulation_taps_tt.Tracer.Node.{check_attestation}
use simulation_taps_tt.Tracer.Program.{Codecs, Draws, report_key}
use simulation_taps_tt.Tracer.Robust.{IsAttested}

module _ (x : Dkg) where
  -- If the attestation is accepted, the crate has verified its signature, and its proof for the
  -- statement on file.
  pub check_attestation_verifies :
      (s : Tracer x) (a : IsAttested x s)
      → check_attestation x s ≡ ok tt
      → (x.sigma_verify a.pk a.m a.sigma ≡ ok true)
        × (x.proofs_verify a.proof a.sigma (statement_of x a.pk a.t_cipher a.m a.v0 a.v_vec a.sigma)
            ≡ ok true)
  unfolding check_attestation verify_sigma verify_proof statement
  check_attestation_verifies s a checked =
      let st = statement_of x a.pk a.t_cipher a.m a.v0 a.v_vec a.sigma in
      let e1 = a.known_pk in
      let e2 = a.known_t_cipher in
      let e3 = a.known_v0 in
      let e4 = a.known_v_vec in
      let e5 = a.known_proof in
      let e6 = a.known_sigma in
      let e7 = a.known_m in
      elim (Outcome-cases (x.sigma_verify a.pk a.m a.sigma)) [
        | inl (true, es) ↦ elim (Outcome-cases (x.proofs_verify a.proof a.sigma st)) [
          | inl (true, ep) ↦ (es, ep)
          | inl (false, ep) ↦ absurd (ground (arith, e1, e2, e3, e4, e5, e6, e7, es, ep, checked))
          | inr (inl (f, ep)) ↦ absurd (ground (arith, e1, e2, e3, e4, e5, e6, e7, es, ep, checked))
          | inr (inr (p, ep)) ↦ absurd (ground (arith, e1, e2, e3, e4, e5, e6, e7, es, ep, checked))
        ]
        | inl (false, es) ↦ absurd (ground (arith, e1, e6, e7, es, checked))
        | inr (inl (f, es)) ↦ absurd (ground (arith, e1, e6, e7, es, checked))
        | inr (inr (p, es)) ↦ absurd (ground (arith, e1, e6, e7, es, checked))
      ]

  module _ (codecs : Codecs x) (draws : Draws x) where
    -- The message is a package sealed for the holder of `keys`, and signed, with this key in it.
    pub record IsReport (keys : ActorKeys x.suite) (s : Tracer x) (pk : x.Gt)
        (report : Message x.suite) : Type 0 where
      pub plain : Bytes
      pub pkg : SecurePackage x.suite
      pub serialised : codecs.report.serialize (record { pk = pk }) ≡ some plain
      pub sealed :
          seal_bytes x.suite {E = Error} s.identity_kp s.transport_kp keys.transport_pk plain
            draws.report_nonce draws.report_time
          ≡ ok pkg
      pub sent : report ≡ secure pkg

    pub report_key-IsReport :
        (s : Tracer x) (share : x.TracerKeyShare) (keys : ActorKeys x.suite) (plain : Bytes)
        (report : Message x.suite)
        → s.tracer_key_share ≡ some share
        → s.combiner_keys ≡ some keys
        → codecs.report.serialize (record { pk = x.share_pk share }) ≡ some plain
        → report_key x codecs draws s ≡ ok report
        → IsReport keys s (x.share_pk share) report
    unfolding report_key own_public_key secure_package_for_combiner
    report_key-IsReport s share keys plain report known_share known_keys serialised reported =
        elim (Outcome-cases (
          seal_bytes x.suite {E = Error} s.identity_kp s.transport_kp keys.transport_pk plain
            draws.report_nonce draws.report_time)) [
              | inl (p, sealed) ↦ record {
                plain = plain;
                pkg = p;
                serialised = serialised;
                sealed = sealed;
                sent = ground (arith, known_share, known_keys, serialised, sealed, reported);
              }
              | inr (inl (f, failed)) ↦
                  absurd (ground (arith, known_share, known_keys, serialised, failed, reported))
              | inr (inr (p, failed)) ↦
                  absurd (ground (arith, known_share, known_keys, serialised, failed, reported))
            ]

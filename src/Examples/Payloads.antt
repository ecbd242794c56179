-- ===== src/Examples/Payloads.antt =====
-- The toy codecs of the program's payloads.
use simulation_taps_tt.Base.{refl}
use simulation_taps_tt.Crypto.{ActorKeys, SecurePackage, BroadcastPackage}
use simulation_taps_tt.Authority
use simulation_taps_tt.Authority.{CombinerPackage}
use simulation_taps_tt.Payloads.{
  SignerPackage, TracerPackage, TracerPublicKeyPackage, CommitmentPackage, SigmaPackage,
}
use simulation_taps_tt.Tracer.{DkgSharePayload, DkgRound1Payload}
use simulation_taps_tt.Examples.Toy.{toy_suite, toy, toy_dkg}
use simulation_taps_tt.Examples.Wires.{Wire, number, both, via, many}

abbrev pub keys_wire : Wire (ActorKeys toy_suite)
keys_wire =
    via (λ p. record { identity_pk = p.0; transport_pk = p.1 })
      (λ k. (k.identity_pk, k.transport_pk)) (λ _. refl) (both number number)

abbrev pub signer_wire : Wire (SignerPackage toy)
signer_wire =
    via (λ p. record { r_point = p.0; c = p.1 }) (λ k. (k.r_point, k.c)) (λ _. refl)
      (both number number)

abbrev pub commitment_wire : Wire (CommitmentPackage toy)
commitment_wire = via (λ n. record { commitment = n }) (λ k. k.commitment) (λ _. refl) number

abbrev pub sigma_wire : Wire (SigmaPackage toy)
sigma_wire = via (λ n. record { z = n }) (λ k. k.z) (λ _. refl) number

abbrev pub public_key_wire : Wire (TracerPublicKeyPackage toy)
public_key_wire = via (λ n. record { pk = n }) (λ k. k.pk) (λ _. refl) number

abbrev pub attestation_wire : Wire (TracerPackage toy)
attestation_wire =
    via
      (λ p. record {
        t_cipher = p.0.0.0;
        v0 = p.0.0.1;
        v_vec = p.0.1;
        proof = p.1.0.0;
        sigma = p.1.0.1;
        m = p.1.1;
      })
      (λ k. (((k.t_cipher, k.v0), k.v_vec), ((k.proof, k.sigma), k.m))) (λ _. refl)
      (both (both (both (both number number) (many number)) (many number))
        (both (both number (both number (both number number))) (many number)))

abbrev pub credentials_wire : Wire (Authority.SignerPackage toy)
credentials_wire =
    via (λ p. record { my_kp = p.0; combiner_keys = p.1 }) (λ k. (k.my_kp, k.combiner_keys))
      (λ _. refl) (both number keys_wire)

abbrev pub combiner_wire : Wire (CombinerPackage toy)
combiner_wire =
    via
      (λ p. record {
        kp_cs = p.0.0.0;
        pk_i = p.0.0.1;
        n = p.0.1.0;
        t = p.0.1.1;
        n3 = p.1.0.0;
        te = p.1.0.1;
        quo = p.1.1.0;
        signer_keys = p.1.1.1.0;
        tracer_keys = p.1.1.1.1;
      })
      (λ k.
        (((k.kp_cs, k.pk_i), (k.n, k.t)), ((k.n3, k.te), (k.quo, (k.signer_keys, k.tracer_keys)))))
      (λ _. refl)
      (both (both (both number (many number)) (both number number))
        (both (both number number) (both (many number) (both (many keys_wire) (many keys_wire)))))

abbrev pub tracer_wire : Wire (Authority.TracerPackage toy)
tracer_wire =
    via
      (λ p. record {
        index = p.0.0.0;
        n3 = p.0.0.1;
        te = p.0.1.0;
        t = p.0.1.1;
        pk_i = p.1.0.0;
        pk_cs = p.1.0.1;
        combiner_keys = p.1.1.0;
        peer_tracers = p.1.1.1;
      })
      (λ k.
        (((k.index, k.n3), (k.te, k.t)), ((k.pk_i, k.pk_cs), (k.combiner_keys, k.peer_tracers))))
      (λ _. refl)
      (both (both (both number number) (both number number))
        (both (both (many number) number) (both keys_wire (many keys_wire))))

abbrev pub share_wire : Wire (DkgSharePayload toy_dkg)
share_wire = via (λ n. record { share = n }) (λ k. k.share) (λ _. refl) number

abbrev pub round1_wire : Wire (DkgRound1Payload toy_dkg)
round1_wire =
    via (λ p. record { broadcast = p }) (λ k. k.broadcast) (λ _. refl) (both number number)

abbrev pub secure_wire : Wire (SecurePackage toy_suite)
secure_wire =
    via (λ p. record { ciphertext = p.0.0; nonce = p.0.1; timestamp = p.1.0; signature = p.1.1 })
      (λ k. ((k.ciphertext, k.nonce), (k.timestamp, k.signature))) (λ _. refl)
      (both (both (many number) (many number)) (both number (both number (many number))))

abbrev pub broadcast_wire : Wire (BroadcastPackage toy_suite)
broadcast_wire =
    via (λ p. record { text = p.0.0; nonce = p.0.1; timestamp = p.1.0; signature = p.1.1 })
      (λ k. ((k.text, k.nonce), (k.timestamp, k.signature))) (λ _. refl)
      (both (both (many number) (many number)) (both number (both number (many number))))

-- ===== src/Combiner/NoPanic.antt =====
-- No run of src/bin/combiner.rs panics.
use simulation_taps_tt.Base.{
  ℕ, zero, suc, ◌%◌, ◌^◌, ◌≡◌, refl, ap, subst, length, some, List, [], ◌∷◌, Bytes, inl, inr,
  Option-cases, arith,
}
use simulation_taps_tt.Base.Map.{Map, lookup, values}
use simulation_taps_tt.Base.Outcome.{Outcome, ok, err, panic}
use simulation_taps_tt.Base.Action.Ensures.{Ends, Ensures, ensured_at_end}
use simulation_taps_tt.Crypto.{Codec, BroadcastPackage, Error, invalid_public_key, sign_broadcast}
use simulation_taps_tt.Crypto.NoPanic.{
  NeverPanics, NeverPanics-cases, IsTotal, sign_broadcast-NeverPanics, signs_broadcast,
}
use simulation_taps_tt.Taps.{Taps, HasSmallScalars}
use simulation_taps_tt.Payloads.{SignerPackage, TracerPackage}
use simulation_taps_tt.Combiner.State.{Combiner}
use simulation_taps_tt.Combiner.GroupKey.{not_empty, finalize_group_key, product}
use simulation_taps_tt.Combiner.Signing.{
  gather, compute_aggregated_nonce, encrypt_threshold, compute_parameters, compute_aggregated_sign,
}
use simulation_taps_tt.Combiner.Proving.{sign_package, prepare_signer_package}
use simulation_taps_tt.Combiner.Node.{Randomness, challenge_phase, attestation_phase}
use simulation_taps_tt.Combiner.Gathering.{Lists}
use simulation_taps_tt.Combiner.Pipeline.{
  attestation_phase_lem, attested, attested_proofs, attested_sigma,
}
use simulation_taps_tt.Combiner.Steady.{Parameters, parameters}

gather-NeverPanics : {A : Type 0} (m : Map A) (i left : ℕ) → NeverPanics (gather m i left)
unfolding gather
gather-NeverPanics m i zero = tt
gather-NeverPanics m i (suc left) = elim (Option-cases (lookup i m)) [
  | inl missing ↦ ground (arith, missing)
  | inr (a, found) ↦ ground (arith, found, gather-NeverPanics m (suc i) left)
]

-- Configured.
pub record IsConfigured (x : Taps) (s : Parameters x) : Type 0 where
  pub quorum : x.Quorum
  pub n : ℕ
  pub t : ℕ
  pub pk_i : List x.PublicKey
  pub taps_kp : x.KeyPair
  pub known_quorum : s.quorum ≡ some quorum
  pub known_n : s.n ≡ some n
  pub known_t : s.t ≡ some t
  pub known_pk_i : s.pk_i ≡ some pk_i
  pub known_taps_kp : s.taps_kp ≡ some taps_kp

-- With the group key as well.
pub record IsKeyed (x : Taps) (s : Parameters x) : Type 0 where
  pub configured : IsConfigured x s
  pub pk_e : x.PublicKey
  pub pk : x.PK
  pub known_pk_e : s.pk_e ≡ some pk_e
  pub known_pk : s.pk ≡ some pk

-- With what the challenge is about.
pub record IsChallenging (x : Taps) (s : Parameters x) : Type 0 where
  pub keyed : IsKeyed x s
  pub r : x.PublicKey
  pub t_cipher : x.Cipher
  pub c : x.Scalar
  pub known_r : s.r_point ≡ some r
  pub known_t_cipher : s.t_cipher ≡ some t_cipher
  pub known_c : s.c ≡ some c

pub Ends-quiet :
    {S E A : Type 0} (Q : A → S → Type 0) (r : Outcome E A) (s : S)
    → NeverPanics r
    → ((a : A) → Q a s)
    → Ends Q r s
Ends-quiet Q (ok a) s h q = q a
Ends-quiet Q (err e) s h q = tt
Ends-quiet Q (panic p) s h q = absurd h

module _ (x : Taps) where
  pub finalize_group_key-Ensures :
      (s : Combiner x)
      → IsConfigured x (parameters s)
      → Ensures (λ _ s'. IsKeyed x (parameters s')) (finalize_group_key x) s
  unfolding finalize_group_key
  finalize_group_key-Ensures s v =
      let known_pk_i = v.known_pk_i in
      let known_kp = v.known_taps_kp in
      elim (NeverPanics-cases (not_empty x s.tracer_pks) (ground arith)) [
        | inr (f, e) ↦
            let ends : finalize_group_key x s ≡ (err f, s) = ground (arith, e) in
            ensured_at_end (λ _ s'. IsKeyed x (parameters s')) (finalize_group_key x) s ends tt
        | inl (_, e) ↦ elim (Option-cases (x.to_public_key (product x (values s.tracer_pks)))) [
          | inl unknown ↦
              let ends : finalize_group_key x s ≡ (err invalid_public_key, s) =
                ground (arith, e, unknown) in
              ensured_at_end (λ _ s'. IsKeyed x (parameters s')) (finalize_group_key x) s ends tt
          | inr (pk_e, point) ↦
              let pk = x.from_public_keys v.pk_i (x.keypair_public v.taps_kp) pk_e in
              let ends : finalize_group_key x s
                  ≡ (ok tt, record s { pk_e = some pk_e; pk = some pk }) =
                ground (arith, e, point, known_pk_i, known_kp) in
              ensured_at_end (λ _ s'. IsKeyed x (parameters s')) (finalize_group_key x) s ends
                (record {
                  configured = record {
                    quorum = v.quorum;
                    n = v.n;
                    t = v.t;
                    pk_i = v.pk_i;
                    taps_kp = v.taps_kp;
                    known_quorum = v.known_quorum;
                    known_n = v.known_n;
                    known_t = v.known_t;
                    known_pk_i = known_pk_i;
                    known_taps_kp = known_kp;
                  };
                  pk_e = pk_e;
                  pk = pk;
                  known_pk_e = refl;
                  known_pk = refl;
                })
        ]
      ]

  -- The crate never panics on the commitments.
  abbrev pub IsQuiet : Type 0
  IsQuiet =
      (comms : List x.Commitment) (q : x.Quorum) → NeverPanics (x.aggregate_commitments comms q)

  module _ (random : Randomness x) (text : Bytes) (now : ℕ) where
    pub challenge_phase-Ensures :
        (codec : Codec (SignerPackage x)) (s : Combiner x)
        → IsTotal codec
        → IsQuiet
        → HasSmallScalars x
        → IsKeyed x (parameters s)
        → Ensures
            (λ _ s'.
              IsChallenging x (parameters s')
              × (s'.w_psi ≡ some random.psi)
              × (s'.message ≡ some text))
            (challenge_phase x codec random text now)
            s
    unfolding challenge_phase compute_aggregated_nonce encrypt_threshold compute_parameters
        prepare_signer_package sign_package
    challenge_phase-Ensures codec s total quiet small k =
        let v = k.configured in
        let known_quorum = v.known_quorum in
        let known_n = v.known_n in
        let known_t = v.known_t in
        let known_pk = k.known_pk in
        let phase = challenge_phase x codec random text now in
        let Q = λ (_ : BroadcastPackage x.suite) (s' : Combiner x).
          IsChallenging x (parameters s')
          × (s'.w_psi ≡ some random.psi)
          × (s'.message ≡ some text) in
        elim (NeverPanics-cases (gather s.commitments 0 v.n)
          (gather-NeverPanics s.commitments 0 v.n)) [
            | inr (f, e) ↦
                let ends : phase s ≡ (err f, s) = ground (arith, known_quorum, known_n, e) in
                ensured_at_end Q phase s ends tt
            | inl (comms, e) ↦
                elim (NeverPanics-cases (x.aggregate_commitments comms v.quorum)
                  (quiet comms v.quorum)) [
                    | inr (f, e1) ↦
                        let ends : phase s ≡ (err f, s) =
                          ground (arith, known_quorum, known_n, e, e1) in
                        ensured_at_end Q phase s ends tt
                    | inl (r, e1) ↦
                        let (t_scalar, scalar) = small (v.t % 2 ^ 64) (omega arith) in
                        let t_cipher = x.encrypt_value random.psi t_scalar in
                        let c = x.compute_challenge_c k.pk t_cipher r text in
                        let s' : Combiner x = record s {
                          r_point = some r;
                          w_psi = some random.psi;
                          t_cipher = some t_cipher;
                          c = some c;
                          message = some text;
                        } in
                        let signed =
                          sign_broadcast x.suite {E = Error} codec s.identity_kp
                            (record { r_point = r; c = c }) random.challenge_nonce now in
                        let ends : phase s ≡ (signed, s') =
                          ground (arith, known_quorum, known_n, known_t, known_pk, e, e1, scalar) in
                        let after : IsChallenging x (parameters s')
                            × (s'.w_psi ≡ some random.psi)
                            × (s'.message ≡ some text) =
                          (
                            record {
                              keyed = record {
                                configured = record {
                                  quorum = v.quorum;
                                  n = v.n;
                                  t = v.t;
                                  pk_i = v.pk_i;
                                  taps_kp = v.taps_kp;
                                  known_quorum = known_quorum;
                                  known_n = known_n;
                                  known_t = known_t;
                                  known_pk_i = v.known_pk_i;
                                  known_taps_kp = v.known_taps_kp;
                                };
                                pk_e = k.pk_e;
                                pk = k.pk;
                                known_pk_e = k.known_pk_e;
                                known_pk = known_pk;
                              };
                              r = r;
                              t_cipher = t_cipher;
                              c = c;
                              known_r = refl;
                              known_t_cipher = refl;
                              known_c = refl;
                            },
                            refl,
                            refl,
                          ) in
                        ensured_at_end Q phase s ends (
                          Ends-quiet Q signed s'
                            (sign_broadcast-NeverPanics x.suite codec Error s.identity_kp
                              (record { r_point = r; c = c }) random.challenge_nonce now total)
                            λ _. after)
                  ]
          ]

    -- What is gathered is on file, in order.
    gather-Lists :
        {A : Type 0} (m : Map A) (i left : ℕ) (as' : List A)
        → gather m i left ≡ ok as'
        → Lists m i as' × (length as' ≡ left)
    unfolding gather
    gather-Lists m i zero [] e = (tt, refl)
    gather-Lists m i zero (a ∷ as') e = absurd (cc (e))
    gather-Lists m i (suc left) as' e = elim (Option-cases (lookup i m)) [
      | inl missing ↦ absurd (ground (arith, missing, e))
      | inr (a, found) ↦
          elim (NeverPanics-cases (gather m (suc i) left) (gather-NeverPanics m (suc i) left)) [
            | inr (f, failed) ↦ absurd (ground (arith, found, failed, e))
            | inl (rest, gathered) ↦
                let same : a ∷ rest ≡ as' = ground (arith, found, gathered, e) in
                let (lists, long) = gather-Lists m (suc i) left rest gathered in
                subst (λ xs. Lists m i xs × (length xs ≡ suc left)) same
                  ((found, lists), ap suc long)
          ]
    ]

    pub attestation_phase-NeverPanics :
        (codec : Codec (TracerPackage x)) (n_signers : ℕ) (s : Combiner x)
        → IsTotal codec
        → IsChallenging x (parameters s)
        → s.w_psi ≡ some random.psi
        → s.message ≡ some text
        → NeverPanics (attestation_phase x codec random text n_signers now s).0
    unfolding attestation_phase compute_aggregated_sign
    attestation_phase-NeverPanics codec n_signers s total h known_psi known_m =
        let k = h.keyed in
        let v = k.configured in
        let known_quorum = v.known_quorum in
        let known_n = v.known_n in
        elim (NeverPanics-cases (gather s.sigmas 0 v.n) (gather-NeverPanics s.sigmas 0 v.n)) [
          | inr (f, e) ↦
              let ends : (attestation_phase x codec random text n_signers now s).0 ≡ err f =
                ground (arith, known_quorum, known_n, e) in
              rw ends tt
          | inl (signs, e) ↦
              let (lists, long) = gather-Lists s.sigmas 0 v.n signs e in
              let statement =
                attested x s random text v.quorum k.pk k.pk_e h.r v.taps_kp h.t_cipher h.c signs
                  n_signers in
              let payload : TracerPackage x = record {
                t_cipher = h.t_cipher;
                v0 = statement.v0;
                v_vec = statement.v;
                proof =
                    attested_proofs x s random text v.quorum k.pk k.pk_e h.r v.taps_kp h.t_cipher
                      h.c signs n_signers;
                sigma =
                    attested_sigma x s random text v.quorum k.pk k.pk_e h.r v.taps_kp h.t_cipher h.c
                      signs n_signers;
                m = text;
              } in
              let (p, sealed) =
                signs_broadcast x.suite codec s.identity_kp total payload random.attestation_nonce
                  now in
              let ends =
                attestation_phase_lem x s random text v.quorum k.pk k.pk_e h.r v.taps_kp h.t_cipher
                  h.c signs n_signers codec now known_quorum (ground (arith, known_n, long))
                  k.known_pk k.known_pk_e v.known_taps_kp h.known_t_cipher known_psi h.known_r
                  h.known_c known_m lists sealed in
              rw ends tt
        ]

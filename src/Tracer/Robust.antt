-- ===== src/Tracer/Robust.antt =====
-- The steps of a tracer's run do not panic, whatever is received.
use simulation_taps_tt.Base.{
  ℕ, ◌+◌, ◌≡◌, some, List, [], ◌∷◌, Bytes, length, inl, inr, Option-cases, arith,
}
use simulation_taps_tt.Base.Map.{Map, keys}
use simulation_taps_tt.Base.Outcome.{Outcome, ok, err, panic, Safe}
use simulation_taps_tt.Crypto.{Codec, Error, IsLawful}
use simulation_taps_tt.Crypto.NoPanic.{
  NeverPanics, IsTotal, IsShort, NeverPanics-cases, seal_bytes-NeverPanics,
}
use simulation_taps_tt.Dkg.{Dkg}
use simulation_taps_tt.Tracer.State.{Tracer}
use simulation_taps_tt.Tracer.Peers.{
  DkgSharePayload, peer_keys, seal_for_peer, secure_package_for_combiner,
}
use simulation_taps_tt.Tracer.KeyGeneration.{dkg_share_for_peer, own_public_key}
use simulation_taps_tt.Tracer.Tracing.{
  partial_for_peer, valid_partials, decode_bits, statement, combine_and_trace, input_of,
  verify_sigma, verify_proof,
}
use simulation_taps_tt.Tracer.Node.{outgoing_shares, check_attestation}
use simulation_taps_tt.Tracer.Program.{
  MainError, wrapped, Codecs, Draws, outgoing_partials, report_key,
}

pub wrapped-Safe :
    {E A : Type 0} (f : E → MainError) (P : A → Type 0) (m : Outcome E A)
    → Safe P m
    → Safe P (wrapped f m)
wrapped-Safe f P (ok a) h = h
wrapped-Safe f P (err e) h = tt
wrapped-Safe f P (panic p) h = absurd h

pub wrapped-NeverPanics :
    {E A : Type 0} (f : E → MainError) (m : Outcome E A) → NeverPanics m → NeverPanics (wrapped f m)
wrapped-NeverPanics f m h = wrapped-Safe f (λ _. Unit) m h

module _ (x : Dkg) where
  -- The functions of the crate give errors, and do not panic.
  pub record IsQuiet : Type 0 where
    pub finalize :
        (p : x.DkgParticipant) (qual : List ℕ) (broadcasts : Map x.DkgBroadcast) (shares : Map x.Fq)
        → NeverPanics (x.participant_finalize p qual broadcasts shares)
    pub sigma : (pk : x.PK) (m : Bytes) (sigma : x.Sigma) → NeverPanics (x.sigma_verify pk m sigma)
    pub proofs :
        (proofs : x.Proofs) (sigma : x.Sigma) (st : _)
        → NeverPanics (x.proofs_verify proofs sigma st)
    pub key :
        (qual : List ℕ) (broadcasts : Map x.DkgBroadcast) (k : ℕ)
        → NeverPanics (x.verification_key qual broadcasts k)
    pub combine :
        (input : x.DecryptionInput) (partials : List x.PartialDecryption) (te : ℕ)
        → NeverPanics (x.combine_partial_decryptions input partials te)
    pub decode : (g : x.Gt) (i : ℕ) → NeverPanics (x.decode_bit g i)

  -- The attestation is loaded, and the registry is known.
  pub record IsAttested (s : Tracer x) : Type 0 where
    pub pk : x.PK
    pub t_cipher : x.Cipher
    pub v0 : List x.PublicKey
    pub v_vec : List x.PublicKey
    pub proof : x.Proofs
    pub sigma : x.Sigma
    pub m : Bytes
    pub known_pk : s.pk ≡ some pk
    pub known_t_cipher : s.t_cipher ≡ some t_cipher
    pub known_v0 : s.v0 ≡ some v0
    pub known_v_vec : s.v_vec ≡ some v_vec
    pub known_proof : s.proof ≡ some proof
    pub known_sigma : s.sigma ≡ some sigma
    pub known_m : s.message ≡ some m

  module _ (quiet : IsQuiet) where
    valid_partials-NeverPanics :
        (s : Tracer x) (share : x.TracerKeyShare) (input : x.DecryptionInput)
        (partials : List x.PartialDecryption)
        → NeverPanics (valid_partials x s share input partials)
    unfolding valid_partials
    valid_partials-NeverPanics s share input [] = tt
    valid_partials-NeverPanics s share input (p ∷ later) = ground (
      arith,
      quiet.key (x.share_qual share) s.dkg_broadcasts (x.tracer_index p),
      valid_partials-NeverPanics s share input later,
    )

    decode_bits-NeverPanics : (i : ℕ) (gs : List x.Gt) → NeverPanics (decode_bits x i gs)
    unfolding decode_bits
    decode_bits-NeverPanics i [] = tt
    decode_bits-NeverPanics i (g ∷ later) =
        ground (arith, quiet.decode g i, decode_bits-NeverPanics (i + 1) later)

    pub combine_and_trace-NeverPanics :
        (s : Tracer x) (partials : List x.PartialDecryption)
        → IsAttested s
        → NeverPanics (combine_and_trace x s partials)
    unfolding combine_and_trace statement
    combine_and_trace-NeverPanics s partials a = elim (Option-cases s.tracer_key_share) [
      | inl none_yet ↦ ground (arith, a.known_sigma, a.known_v0, a.known_v_vec, none_yet)
      | inr (share, known_share) ↦ elim (Option-cases s.te) [
        | inl unset ↦ ground (arith, a.known_sigma, a.known_v0, a.known_v_vec, known_share, unset)
        | inr (te, known_te) ↦
            let input = input_of x a.sigma a.v0 a.v_vec in
            elim (NeverPanics-cases (valid_partials x s share input partials)
              (valid_partials-NeverPanics s share input partials)) [
                | inr (_, e) ↦
                    ground
                      (arith, a.known_sigma, a.known_v0, a.known_v_vec, known_share, known_te, e)
                | inl (valid, e) ↦
                    elim (NeverPanics-cases (x.combine_partial_decryptions input valid te)
                      (quiet.combine input valid te)) [
                        | inr (_, e') ↦ ground (
                          arith, a.known_sigma, a.known_v0, a.known_v_vec, known_share, known_te, e,
                          e',
                        )
                        | inl (pair, e') ↦
                            elim (NeverPanics-cases (decode_bits x 0 pair.1)
                              (decode_bits-NeverPanics 0 pair.1)) [
                                | inr (_, e'') ↦ ground (
                                  arith, a.known_sigma, a.known_v0, a.known_v_vec, known_share,
                                  known_te, e, e', e'',
                                )
                                | inl (bits, e'') ↦ ground (
                                  arith, a.known_sigma, a.known_v0, a.known_v_vec, known_share,
                                  known_te, e, e', e'', a.known_pk, a.known_t_cipher, a.known_m,
                                )
                              ]
                      ]
              ]
      ]
    ]

    pub check_attestation-NeverPanics :
        (s : Tracer x) → IsAttested s → NeverPanics (check_attestation x s)
    unfolding check_attestation verify_sigma verify_proof statement
    check_attestation-NeverPanics s a = ground (
      arith,
      a.known_sigma,
      a.known_m,
      a.known_pk,
      a.known_proof,
      a.known_t_cipher,
      a.known_v0,
      a.known_v_vec,
      quiet.sigma a.pk a.m a.sigma,
      quiet.proofs a.proof a.sigma (record {
        pk = a.pk;
        t_cipher = a.t_cipher;
        r_point = x.sigma_r a.sigma;
        m = a.m;
        ct = x.sigma_ct a.sigma;
        v0 = a.v0;
        v = a.v_vec;
      }),
    )

  module _ (L : IsLawful x.suite) where
    peer_keys-NeverPanics : (s : Tracer x) (id : ℕ) → NeverPanics (peer_keys x s id)
    unfolding peer_keys
    peer_keys-NeverPanics s id = ground arith

    pub seal_for_peer-NeverPanics :
        {A : Type 0} (codec : Codec A) (s : Tracer x) (id : ℕ) (a : A) (random : Bytes) (now : ℕ)
        → IsShort x.suite codec
        → length random ≡ 12
        → NeverPanics (seal_for_peer x codec s id a random now)
    unfolding seal_for_peer
    seal_for_peer-NeverPanics codec s id a random now short twelve =
        elim (NeverPanics-cases (peer_keys x s id) (peer_keys-NeverPanics s id)) [
          | inr (_, e) ↦ ground (arith, e)
          | inl (keys, e) ↦ elim (Option-cases (codec.serialize a)) [
            | inl unreadable ↦ ground (arith, e, unreadable)
            | inr (plain, e') ↦ ground (
              arith,
              e,
              e',
              seal_bytes-NeverPanics x.suite L Error s.identity_kp s.transport_kp keys.transport_pk
                  plain random now twelve (short a plain e'),
            )
          ]
        ]

    pub outgoing_shares-NeverPanics :
        (codec : Codec (DkgSharePayload x)) (s : Tracer x) (random : ℕ → Bytes) (now : ℕ → ℕ)
        (peers : List ℕ)
        → IsShort x.suite codec
        → ((k : ℕ) → length (random k) ≡ 12)
        → NeverPanics (outgoing_shares x codec s random now peers)
    unfolding outgoing_shares dkg_share_for_peer
    outgoing_shares-NeverPanics codec s random now [] short twelve = tt
    outgoing_shares-NeverPanics codec s random now (peer ∷ peers) short twelve =
        elim (Option-cases s.dkg_participant) [
          | inl unset ↦ ground (arith, unset)
          | inr (participant, started) ↦ ground (
            arith,
            started,
            seal_for_peer-NeverPanics codec s peer
                (record { share = x.share_for participant (peer + 1) }) (random peer) (now peer)
                short (twelve peer),
            outgoing_shares-NeverPanics codec s random now peers short twelve,
          )
        ]

    module _ (codecs : Codecs x) (draws : Draws x) where
      pub outgoing_partials-NeverPanics :
          (s : Tracer x) (own : x.PartialDecryption) (peers : List ℕ)
          → IsShort x.suite codecs.partial
          → ((k : ℕ) → length (draws.partial_nonce k) ≡ 12)
          → NeverPanics (outgoing_partials x codecs draws s own peers)
      unfolding outgoing_partials partial_for_peer
      outgoing_partials-NeverPanics s own [] short twelve = tt
      outgoing_partials-NeverPanics s own (peer ∷ peers) short twelve = ground (
        arith,
        seal_for_peer-NeverPanics codecs.partial s peer (record { partial = own })
            (draws.partial_nonce peer) (draws.partial_time peer) short (twelve peer),
        outgoing_partials-NeverPanics s own peers short twelve,
      )

      pub report_key-NeverPanics :
          (s : Tracer x) (share : x.TracerKeyShare)
          → s.tracer_key_share ≡ some share
          → IsTotal codecs.report
          → IsShort x.suite codecs.report
          → length draws.report_nonce ≡ 12
          → NeverPanics (report_key x codecs draws s)
      unfolding report_key own_public_key secure_package_for_combiner
      report_key-NeverPanics s share known total short twelve =
          let (plain, e) = total (record { pk = x.share_pk share }) in
          elim (Option-cases s.combiner_keys) [
            | inl unset ↦ ground (arith, known, unset)
            | inr (keys, set) ↦ ground (
              arith,
              known,
              set,
              e,
              seal_bytes-NeverPanics x.suite L Error s.identity_kp s.transport_kp keys.transport_pk
                  plain draws.report_nonce draws.report_time twelve (short _ plain e),
            )
          ]

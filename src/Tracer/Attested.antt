-- ===== src/Tracer/Attested.antt =====
-- A run of src/bin/tracer.rs, phases 4 and 5: the attestation and the trace.
use simulation_taps_tt.Base.{
  ℕ, ◌≡◌, refl, true, ap, Option, none, some, List, [], ◌∷◌, ◌++◌, Every, inl, inr, arith,
}
use simulation_taps_tt.Base.Outcome.{ok, err, Safe, Safe-map}
use simulation_taps_tt.Base.Action.Ensures.{Ensures, ensured_at_end}
use simulation_taps_tt.Crypto.{BroadcastPackage, open_broadcast}
use simulation_taps_tt.Crypto.NoPanic.{
  NeverPanics-cases, safely_returned, open_broadcast-NeverPanics,
}
use simulation_taps_tt.Network.{Message, hello, secure, broadcast}
use simulation_taps_tt.Authority
use simulation_taps_tt.Mesh.{TracerMesh, peer_ids, exchange}
use simulation_taps_tt.Mesh.NoPanic.{exchange-NeverPanics}
use simulation_taps_tt.Payloads.{TracerPackage}
use simulation_taps_tt.Dkg.{Dkg}
use simulation_taps_tt.Tracer.State.{Tracer}
use simulation_taps_tt.Tracer.Peers.{secure_package_for_combiner}
use simulation_taps_tt.Tracer.KeyGeneration.{own_public_key}
use simulation_taps_tt.Tracer.Tracing.{
  load_from_combiner, input_of, partial_decrypt, open_peer_partials, combine_and_trace,
}
use simulation_taps_tt.Tracer.Node.{keep_secure, check_attestation}
use simulation_taps_tt.Tracer.Traced.{statement_of, IsTrace, combine_and_trace-IsTrace}
use simulation_taps_tt.Tracer.Sources.{IsSourced, collected-IsSourced}
use simulation_taps_tt.Tracer.Verified.{check_attestation_verifies}
use simulation_taps_tt.Tracer.Program.{
  protocol, tracing, mesh, wrapped, Codecs, Draws, Surroundings, report_key, receive_attestation,
  outgoing_partials, trace_quorum,
}
use simulation_taps_tt.Tracer.Robust.{
  IsAttested, IsQuiet, wrapped-Safe, check_attestation-NeverPanics, combine_and_trace-NeverPanics,
  outgoing_partials-NeverPanics,
}
use simulation_taps_tt.Tracer.Session.{Settings, IsWorking}
use simulation_taps_tt.Tracer.Keyed.{IsKeyed}

module _ (x : Dkg) (codecs : Codecs x) (draws : Draws x) where
  module _ (attestation : Option (Message x.suite)) (config : Authority.TracerPackage x.taps) where
    -- The group's public key, with the key that a key share gives.
    abbrev pub group_key : x.TracerKeyShare → x.PK
    group_key share = x.from_public_keys config.pk_i config.pk_cs (x.pk_e_as_public_key share)

    -- The tracer has its key share and an attestation that the Combiner of its configuration has
    -- signed. The crate has verified its signature on its message under the group's key, and its
    -- proof for the statement of that key, the attestation's parts, and the `R` and ciphertext of
    -- its signature.
    pub record IsAccepted (s : Tracer x) : Type 0 where
      pub keyed : IsKeyed x config s
      pub signed : BroadcastPackage x.suite
      pub came : attestation ≡ some (broadcast signed)
      pub content : TracerPackage x.taps
      pub opened :
          open_broadcast x.suite codecs.attestation config.combiner_keys.identity_pk signed
            draws.attestation_time
          ≡ ok content
      pub known_t_cipher : s.t_cipher ≡ some content.t_cipher
      pub known_v0 : s.v0 ≡ some content.v0
      pub known_v_vec : s.v_vec ≡ some content.v_vec
      pub known_proof : s.proof ≡ some content.proof
      pub known_sigma : s.sigma ≡ some content.sigma
      pub known_m : s.message ≡ some content.m
      pub sigma_verified : x.sigma_verify (group_key keyed.share) content.m content.sigma ≡ ok true
      pub proof_verified :
          x.proofs_verify content.proof content.sigma (
            statement_of x
              (group_key keyed.share)
              content.t_cipher
              content.m
              content.v0
              content.v_vec
              content.sigma)
          ≡ ok true

    -- The quorum is traced from partial decryptions that are the tracer's own, or that one of its
    -- peers in the roster sealed.
    abbrev pub Traces : (s : Tracer x) → IsAccepted s → List ℕ → Type 0
    Traces s a quorum =
        (partials : List x.PartialDecryption) × IsTrace x s partials quorum
        × Every
            (IsSourced x codecs.partial s draws.partial_received config.peer_tracers (
              x.partial_decrypt a.keyed.share
                (input_of x a.content.sigma a.content.v0 a.content.v_vec)))
            partials

    pub receive_attestation-Ensures :
        (s : Tracer x)
        → IsQuiet x
        → IsKeyed x config s
        → Ensures
            (λ _ s'. IsAccepted s' × (report_key x codecs draws s' ≡ report_key x codecs draws s))
            (receive_attestation x codecs draws attestation)
            s
    unfolding receive_attestation load_from_combiner report_key own_public_key
        secure_package_for_combiner
    receive_attestation-Ensures s quiet k = go attestation refl
      where
        go :
            (m : Option (Message x.suite))
            → attestation ≡ m
            → Ensures
                (λ _ s'.
                  IsAccepted s' × (report_key x codecs draws s' ≡ report_key x codecs draws s))
                (receive_attestation x codecs draws m)
                s
        go none e = tt
        go (some (hello _ _ _ _)) e = tt
        go (some (secure _)) e = tt
        go (some (broadcast p)) e =
            let known_keys : s.combiner_keys ≡ some config.combiner_keys =
              ap (λ (q : Settings x). q.combiner_keys) k.underway.configured in
            let ends = λ (_ : Unit {0}) (s' : Tracer x).
              IsAccepted s' × (report_key x codecs draws s' ≡ report_key x codecs draws s) in
            let phase = receive_attestation x codecs draws (some (broadcast p)) in
            let pk = config.combiner_keys.identity_pk in
            elim (NeverPanics-cases
              (open_broadcast x.suite codecs.attestation pk p draws.attestation_time)
              (open_broadcast-NeverPanics x.suite codecs.attestation pk p draws.attestation_time)) [
                | inr (f, failed) ↦
                    let e' : phase s ≡ (err (protocol f), s) = ground (arith, known_keys, failed) in
                    ensured_at_end ends phase s e' tt
                | inl (content, opened) ↦
                    let s' : Tracer x = record s {
                      t_cipher = some content.t_cipher;
                      v0 = some content.v0;
                      v_vec = some content.v_vec;
                      proof = some content.proof;
                      sigma = some content.sigma;
                      message = some content.m;
                    } in
                    let e1 : phase s ≡ (wrapped tracing (check_attestation x s'), s') =
                      ground (arith, known_keys, opened) in
                    let v = k.underway.sound in
                    let u = k.underway in
                    let a : IsAttested x s' = record {
                      pk =
                          x.from_public_keys config.pk_i config.pk_cs
                            (x.pk_e_as_public_key k.share);
                      t_cipher = content.t_cipher;
                      v0 = content.v0;
                      v_vec = content.v_vec;
                      proof = content.proof;
                      sigma = content.sigma;
                      m = content.m;
                      known_pk = k.known_pk;
                      known_t_cipher = refl;
                      known_v0 = refl;
                      known_v_vec = refl;
                      known_proof = refl;
                      known_sigma = refl;
                      known_m = refl;
                    } in
                    elim (NeverPanics-cases (check_attestation x s')
                      (check_attestation-NeverPanics x quiet s' a)) [
                        | inr (f, refused) ↦
                            let e' : phase s ≡ (err (tracing f), s') =
                              ground (arith, e1, refused) in
                            ensured_at_end ends phase s e' tt
                        | inl (_, checked) ↦
                            let e' : phase s ≡ (ok tt, s') = ground (arith, e1, checked) in
                            ensured_at_end ends phase s e' (
                              record {
                                keyed = record {
                                  underway = record {
                                    configured = u.configured;
                                    sound = record {
                                      threshold = v.threshold;
                                      own = v.own;
                                      broadcasts = v.broadcasts;
                                      shares = v.shares;
                                    };
                                    participant = u.participant;
                                    started = u.started;
                                  };
                                  share = k.share;
                                  known_share = k.known_share;
                                  finalized = k.finalized;
                                  known_pk_e = k.known_pk_e;
                                  known_pk = k.known_pk;
                                };
                                signed = p;
                                came = e;
                                content = content;
                                opened = opened;
                                known_t_cipher = refl;
                                known_v0 = refl;
                                known_v_vec = refl;
                                known_proof = refl;
                                known_sigma = refl;
                                known_m = refl;
                                sigma_verified = (check_attestation_verifies x s' a checked).0;
                                proof_verified = (check_attestation_verifies x s' a checked).1;
                              },
                              refl,
                            )
                      ]
              ]

  module _ (around : Surroundings x) (w : IsWorking x codecs draws around) (links : TracerMesh)
      (config : Authority.TracerPackage x.taps) where
    pub trace_quorum-IsTrace :
        (s : Tracer x)
        → (a : IsAccepted around.attestation config s)
        → Safe (Traces around.attestation config s a) (trace_quorum x codecs draws around links s)
    unfolding trace_quorum partial_decrypt
    trace_quorum-IsTrace s a =
        let loaded : IsAttested x s = record {
          pk = _;
          t_cipher = a.content.t_cipher;
          v0 = a.content.v0;
          v_vec = a.content.v_vec;
          proof = a.content.proof;
          sigma = a.content.sigma;
          m = a.content.m;
          known_pk = a.keyed.known_pk;
          known_t_cipher = a.known_t_cipher;
          known_v0 = a.known_v0;
          known_v_vec = a.known_v_vec;
          known_proof = a.known_proof;
          known_sigma = a.known_sigma;
          known_m = a.known_m;
        } in
        let known_sigma = loaded.known_sigma in
        let known_v0 = loaded.known_v0 in
        let known_v_vec = loaded.known_v_vec in
        let known_share = a.keyed.known_share in
        let own =
          x.partial_decrypt a.keyed.share (input_of x loaded.sigma loaded.v0 loaded.v_vec) in
        let Q = Traces around.attestation config s a in
        let known_roster : s.peer_tracers ≡ some config.peer_tracers =
          ap (λ (q : Settings x). q.peer_tracers) a.keyed.underway.configured in
        let seals = outgoing_partials x codecs draws s own (peer_ids links) in
        elim (NeverPanics-cases seals (
          outgoing_partials-NeverPanics x w.lawful codecs draws s own (peer_ids links)
            w.partial_short w.partial_nonces)) [
              | inr (f, failed) ↦
                  let e : trace_quorum x codecs draws around links s ≡ err (protocol f) =
                    ground (arith, known_sigma, known_v0, known_v_vec, known_share, failed) in
                  rw e tt
              | inl (outgoing, sealed) ↦
                  let round = exchange x.suite around.round3 links outgoing in
                  elim (NeverPanics-cases round
                    (exchange-NeverPanics x.suite around.round3 w.answers3 links outgoing)) [
                      | inr (f, failed) ↦
                          let e : trace_quorum x codecs draws around links s ≡ err (mesh f) =
                            ground (
                              arith, known_sigma, known_v0, known_v_vec, known_share, sealed,
                              failed,
                            ) in
                          rw e tt
                      | inl (received, exchanged) ↦
                          let partials =
                            open_peer_partials x codecs.partial s draws.partial_received
                              (keep_secure x received)
                            ++ (own ∷ []) in
                          let e : trace_quorum x codecs draws around links s
                              ≡ wrapped tracing (combine_and_trace x s partials) =
                            ground (
                              arith, known_sigma, known_v0, known_v_vec, known_share, sealed,
                              exchanged,
                            ) in
                          rw e (
                            wrapped-Safe tracing Q (combine_and_trace x s partials) (
                              Safe-map (λ quorum. combine_and_trace x s partials ≡ ok quorum) Q
                                (combine_and_trace x s partials)
                                (λ quorum traced. (
                                  partials,
                                  combine_and_trace-IsTrace x s partials quorum traced,
                                  collected-IsSourced x codecs.partial s draws.partial_received
                                      config.peer_tracers (keep_secure x received) own known_roster,
                                ))
                                (safely_returned (combine_and_trace x s partials)
                                  (combine_and_trace-NeverPanics x w.quiet s partials loaded))))
                    ]
            ]

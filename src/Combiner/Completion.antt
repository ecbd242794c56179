-- ===== src/Combiner/Completion.antt =====
-- A run of src/bin/combiner.rs in which everyone takes part.
use mathlib.Core.List.Permᴰ
use simulation_taps_tt.Base.{
  ℕ, ◌≤◌, ◌<◌, ◌≡◌, refl, ◌^◌, true, some, List, [], ◌∷◌, map, ◌++◌, Bytes, length, replicate,
  arith,
}
use simulation_taps_tt.Base.Outcome.{ok}
use simulation_taps_tt.Crypto.{BroadcastPackage, Error, be_bytes, new_identity, sign_broadcast}
use simulation_taps_tt.Crypto.NoPanic.{IsTotal, signs_broadcast}
use simulation_taps_tt.Network.{AuthorityAnchor, broadcast, bind_with_retry}
use simulation_taps_tt.Authority.{CombinerPackage}
use simulation_taps_tt.Taps.{Taps, HasSmallScalars, IsAbelian}
use simulation_taps_tt.Payloads.{CommitmentPackage, SigmaPackage}
use simulation_taps_tt.Combiner.State.{Combiner, new_combiner}
use simulation_taps_tt.Combiner.Intake.{load_from_authority}
use simulation_taps_tt.Combiner.GroupKey.{product}
use simulation_taps_tt.Combiner.Node.{Streams, no_streams, accept_all, Randomness, group_key_phase}
use simulation_taps_tt.Combiner.Program.{Codecs, Times, Surroundings, bootstrap, run}
use simulation_taps_tt.Combiner.Provenance.{filed}
use simulation_taps_tt.Combiner.Accounts.{commitment_round, share_round}
use simulation_taps_tt.Combiner.Run.{Configures}
use simulation_taps_tt.Combiner.GroupKeyPhase.{file, Reports, group_key_phase-product}
use simulation_taps_tt.Combiner.Pipeline.{
  challenge_phase_runs, attestation_phase_lem, attested, attested_proofs, attested_sigma,
}
use simulation_taps_tt.Combiner.Deliveries.{
  Delivers, Lists-file, collect_commitments_all, collect_sigmas_all, to_all, send_streams_all,
}

-- The Combiner, with a configuration.
abbrev pub configured_with : {x : Taps} → Combiner x → CombinerPackage x → Combiner x
configured_with s config = record s {
  signer_keys = some config.signer_keys;
  tracer_keys = some config.tracer_keys;
  pk_i = some config.pk_i;
  quorum = some config.quo;
  n = some config.n;
  t = some config.t;
  n3 = some config.n3;
  te = some config.te;
  taps_kp = some config.kp_cs;
}

module _ (x : Taps) (codecs : Codecs x) (random : Randomness x) (times : Times x)
    (around : Surroundings x) (anchor : AuthorityAnchor x.suite) (text : Bytes)
    (isk tsk : x.SecretKey) where
  -- Everyone takes part: the configuration comes and opens, the listener binds, all connect, a key
  -- arrives from every tracer, a commitment and a share arrive from every signer, the crate takes
  -- the key and the commitments, and what is sent reaches its receiver.
  pub record TakePart : Type 0 where
    pub config : CombinerPackage x
    pub configured : Configures x codecs times around anchor (new_combiner x isk tsk) config
    pub signers : length config.signer_keys ≡ config.n
    pub tracers : length config.tracer_keys ≡ config.n3
    pub some_tracer : 1 ≤ config.n3
    pub threshold : config.t < 2 ^ 64
    pub listener : ℕ
    pub listens : (bind_with_retry around.bind).0 ≡ ok listener
    pub st : Streams
    pub connected :
        accept_all config.n config.n3 around.conns (no_streams config.n config.n3) ≡ ok st
    pub pks : List x.Gt
    pub every_tracer : length pks ≡ config.n3
    pub reports :
        Reports x codecs.report times.reports around.reports
          (configured_with (new_combiner x isk tsk) config)
          0
          st.tracers
          pks
    pub pk_e : x.PublicKey
    pub point : x.to_public_key (product x pks) ≡ some pk_e
    pub comms : List (CommitmentPackage x)
    pub every_commitment : length (map (λ p. p.commitment) comms) ≡ config.n
    pub commitments :
        Delivers x
          (commitment_round x codecs times around st
            (filed x (configured_with (new_combiner x isk tsk) config)))
          0
          st.signers
          comms
    pub r : x.PublicKey
    pub aggregated : x.aggregate_commitments (map (λ p. p.commitment) comms) config.quo ≡ ok r
    pub signs : List (SigmaPackage x)
    pub every_share : length (map (λ p. p.z) signs) ≡ config.n
    pub shares :
        Delivers x
          (share_round x codecs times around st
            (filed x (configured_with (new_combiner x isk tsk) config)))
          0
          st.signers
          signs
    pub challenge_reaches : (socket : ℕ) → around.challenge_reaches socket ≡ true
    pub attestation_reaches : (socket : ℕ) → around.attestation_reaches socket ≡ true

  length-map : {A B : Type 0} (f : A → B) (xs : List A) → length (map f xs) ≡ length xs
  length-map f [] = refl
  length-map f (a ∷ xs) = ground (arith, length-map f xs)

  bootstrap_configured :
      (w : TakePart)
      → bootstrap x codecs.config around.credentials anchor times.config (new_combiner x isk tsk)
        ≡ (ok tt, configured_with (new_combiner x isk tsk) w.config)
  unfolding bootstrap load_from_authority
  bootstrap_configured w =
      let (p, came, opened) = w.configured in ground (arith, came, opened, w.signers, w.tracers)

  -- If everyone takes part, the run of a new Combiner returns: every signer is sent one package,
  -- signed by the Combiner, with the aggregate nonce of the commitments and the challenge for the
  -- group's registry, the encrypted threshold, that nonce and the message; and every tracer is sent
  -- one package.
  pub run_completes :
      (w : TakePart)
      → IsAbelian x
      → HasSmallScalars x
      → IsTotal codecs.challenge
      → IsTotal codecs.attestation
      → (t_scalar : x.Scalar) × (challenge : BroadcastPackage x.suite)
        × (attestation : BroadcastPackage x.suite) × (x.scalar_from_be_bytes
              (replicate 24 0 ++ be_bytes 8 w.config.t)
            ≡ some t_scalar)
        × (let pk = x.from_public_keys w.config.pk_i (x.keypair_public w.config.kp_cs) w.pk_e in
            let c = x.compute_challenge_c pk (x.encrypt_value random.psi t_scalar) w.r text in
            sign_broadcast x.suite {E = Error} codecs.challenge
              (new_identity x.suite isk)
              (record { r_point = w.r; c = c })
              random.challenge_nonce
              times.challenge
            ≡ ok challenge)
        × ((run x codecs random times around anchor text (new_combiner x isk tsk)).0
            ≡ ok (
              to_all (broadcast challenge) w.st.signers,
              to_all (broadcast attestation) w.st.tracers,
            ))
  unfolding run new_combiner
  run_completes w A small total_challenge total_attestation =
      let config = w.config in
      let st = w.st in
      let pk = x.from_public_keys config.pk_i (x.keypair_public config.kp_cs) w.pk_e in
      let comms = map (λ (p : CommitmentPackage x). p.commitment) w.comms in
      let signs = map (λ (p : SigmaPackage x). p.z) w.signs in
      let s0 = new_combiner x isk tsk in
      let s1 = configured_with s0 config in
      let s2 : Combiner x = record s1 {
        tracer_pks = file 0 w.pks [];
        pk_e = some w.pk_e;
        pk = some pk;
      } in
      let s3 : Combiner x = record s2 { commitments = file 0 comms [] } in
      let booted = bootstrap_configured w in
      let keyed : group_key_phase x codecs.report times.reports around.reports st.tracers s1
          ≡ (ok tt, s2) =
        group_key_phase-product x codecs.report times.reports around.reports s1 A config.tracer_keys
          config.pk_i config.kp_cs w.pk_e st.tracers w.pks w.pks refl refl
          (ground (arith, w.tracers)) (ground (arith, w.tracers, w.every_tracer))
          (ground (arith, w.tracers, w.some_tracer)) refl refl w.reports (Permᴰ.refl w.pks)
          w.point in
      let committed =
        collect_commitments_all x s2 config.n refl
          (commitment_round x codecs times around st (filed x s1)) refl refl w.comms refl
          (omega (
            arith,
            w.every_commitment,
            length-map (λ (p : CommitmentPackage x). p.commitment) w.comms,
          ))
          w.commitments in
      let (t_scalar, small_t, challenged) =
        challenge_phase_runs x s3 random text small codecs.challenge config.quo config.t
          times.challenge pk comms w.r refl (ground (arith, w.every_commitment)) refl w.threshold
          refl (Lists-file comms) w.aggregated in
      let t_cipher = x.encrypt_value random.psi t_scalar in
      let c = x.compute_challenge_c pk t_cipher w.r text in
      let s4 : Combiner x = record s3 {
        r_point = some w.r;
        w_psi = some random.psi;
        t_cipher = some t_cipher;
        c = some c;
        message = some text;
      } in
      let (challenge, signed) =
        signs_broadcast x.suite codecs.challenge (new_identity x.suite isk) total_challenge
          (record { r_point = w.r; c = c }) random.challenge_nonce times.challenge in
      let shared =
        collect_sigmas_all x s4 config.n refl (share_round x codecs times around st (filed x s1))
          refl refl w.signs refl
          (omega (arith, w.every_share, length-map (λ (p : SigmaPackage x). p.z) w.signs))
          w.shares in
      let s5 : Combiner x = record s4 { sigmas = file 0 signs [] } in
      let statement =
        attested x s5 random text config.quo pk w.pk_e w.r config.kp_cs t_cipher c signs config.n in
      let (attestation, sealed) =
        signs_broadcast x.suite codecs.attestation (new_identity x.suite isk) total_attestation
          (record {
            t_cipher = t_cipher;
            v0 = statement.v0;
            v_vec = statement.v;
            proof =
                attested_proofs x s5 random text config.quo pk w.pk_e w.r config.kp_cs t_cipher c
                  signs config.n;
            sigma =
                attested_sigma x s5 random text config.quo pk w.pk_e w.r config.kp_cs t_cipher c
                  signs config.n;
            m = text;
          })
          random.attestation_nonce times.attestation in
      let finished =
        attestation_phase_lem x s5 random text config.quo pk w.pk_e w.r config.kp_cs t_cipher c
          signs config.n codecs.attestation times.attestation refl (ground (arith, w.every_share))
          refl refl refl refl refl refl refl refl (Lists-file signs) sealed in
      (
        t_scalar,
        challenge,
        attestation,
        small_t,
        signed,
        ground (
          arith,
          booted,
          w.listens,
          w.connected,
          keyed,
          committed,
          challenged,
          signed,
          send_streams_all around.challenge_reaches (broadcast challenge) st.signers
              w.challenge_reaches,
          shared,
          finished,
          send_streams_all around.attestation_reaches (broadcast attestation) st.tracers
              w.attestation_reaches,
        ),
      )

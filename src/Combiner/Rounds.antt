-- ===== src/Combiner/Rounds.antt =====
-- The loops of src/bin/combiner.rs over the reports, the commitments and the shares.
use simulation_taps_tt.Base.{
  ℕ, ◌≡◌, refl, ◌⊎◌, inl, inr, Option, List, none, some, Bool-cases, Option-cases, ltb, arith,
}
use simulation_taps_tt.Base.Map.{insert}
use simulation_taps_tt.Base.Outcome.{ok, Outcome-cases}
use simulation_taps_tt.Crypto.{Codec, SecurePackage, ActorKeys, open_secure}
use simulation_taps_tt.Network.{Message, hello, secure, broadcast}
use simulation_taps_tt.Taps.{Taps}
use simulation_taps_tt.Payloads.{CommitmentPackage, SigmaPackage, TracerPublicKeyPackage}
use simulation_taps_tt.Combiner.State.{Combiner}
use simulation_taps_tt.Combiner.Intake.{
  handle_commitment, handle_sigma, keys_in_roster, keys_of_signer, keys_of_tracer,
  open_tracer_package, load_commitment, load_sigma, load_tracer_public_key,
}
use simulation_taps_tt.Combiner.Node.{
  take_commitment, take_sigma, take_public_key, collect_commitments, collect_sigmas,
  collect_public_keys,
}
use simulation_taps_tt.Combiner.Provenance.{Round, Sourced, filed}
use simulation_taps_tt.Combiner.Shelf.{Shelf, loop-At}

module _ (x : Taps) where
  -- How a handler of a message ends, for what it files and in which map.
  abbrev Takes :
      {A : Type 0}
      → Codec A
      → ℕ
      → ℕ
      → Option (Message x.suite)
      → Combiner x
      → Combiner x
      → Option (List (ActorKeys x.suite))
      → (A → Combiner x)
      → Type 0
  Takes {A} codec now id m s s' roster storing =
      (filed x s' ≡ filed x s)
      ⊎ ((p : SecurePackage x.suite) × (keys : ActorKeys x.suite) × (payload : A) × (m
            ≡ some (secure p))
          × (keys_in_roster x roster id ≡ ok keys)
          × (open_secure x.suite codec s.transport_kp keys p now ≡ ok payload)
          × (filed x s' ≡ filed x (storing payload)))

  take_commitment_cases :
      (codec : Codec (CommitmentPackage x)) (now id : ℕ) (m : Option (Message x.suite))
      (s : Combiner x)
      → Takes codec now id m s
          (take_commitment x codec now id m s).1
          s.signer_keys
          (λ q. record s { commitments = insert id q.commitment s.commitments })
  unfolding take_commitment load_commitment keys_of_signer handle_commitment
  take_commitment_cases codec now id none s = inl refl
  take_commitment_cases codec now id (some (hello _ _ _ _)) s = inl refl
  take_commitment_cases codec now id (some (broadcast _)) s = inl refl
  take_commitment_cases codec now id (some (secure p)) s =
      elim (Outcome-cases (keys_in_roster x s.signer_keys id)) [
        | inr (inl (_, ek)) ↦ inl (ground (arith, ek))
        | inr (inr (_, ek)) ↦ inl (ground (arith, ek))
        | inl (keys, ek) ↦
            elim (Outcome-cases (open_secure x.suite codec s.transport_kp keys p now)) [
              | inr (inl (_, eo)) ↦ inl (ground (arith, ek, eo))
              | inr (inr (_, eo)) ↦ inl (ground (arith, ek, eo))
              | inl (payload, eo) ↦ elim (Option-cases s.n) [
                | inl unset ↦ inl (ground (arith, ek, eo, unset))
                | inr (n, set) ↦ elim (Bool-cases (ltb id n)) [
                  | inr above ↦ inl (ground (arith, ek, eo, set, above))
                  | inl below ↦
                      inr (p, keys, payload, refl, ek, eo, ground (arith, ek, eo, set, below))
                ]
              ]
            ]
      ]

  abbrev commitment_shelf : Shelf x (CommitmentPackage x) x.Commitment
  commitment_shelf = record {
    value = λ q. q.commitment;
    roster = λ f. f.signer_keys;
    get = λ f. f.commitments;
    put = λ m f. record f { commitments = m };
    take = take_commitment x;
    get-put = λ m f. refl;
    put-put = λ m m' f. refl;
    put-get = λ f. refl;
    roster-put = λ m f. refl;
    own-put = λ m f. refl;
    take_cases = take_commitment_cases;
  }

  take_sigma_cases :
      (codec : Codec (SigmaPackage x)) (now id : ℕ) (m : Option (Message x.suite)) (s : Combiner x)
      → Takes codec now id m s
          (take_sigma x codec now id m s).1
          s.signer_keys
          (λ q. record s { sigmas = insert id q.z s.sigmas })
  unfolding take_sigma load_sigma keys_of_signer handle_sigma
  take_sigma_cases codec now id none s = inl refl
  take_sigma_cases codec now id (some (hello _ _ _ _)) s = inl refl
  take_sigma_cases codec now id (some (broadcast _)) s = inl refl
  take_sigma_cases codec now id (some (secure p)) s =
      elim (Outcome-cases (keys_in_roster x s.signer_keys id)) [
        | inr (inl (_, ek)) ↦ inl (ground (arith, ek))
        | inr (inr (_, ek)) ↦ inl (ground (arith, ek))
        | inl (keys, ek) ↦
            elim (Outcome-cases (open_secure x.suite codec s.transport_kp keys p now)) [
              | inr (inl (_, eo)) ↦ inl (ground (arith, ek, eo))
              | inr (inr (_, eo)) ↦ inl (ground (arith, ek, eo))
              | inl (payload, eo) ↦ elim (Option-cases s.n) [
                | inl unset ↦ inl (ground (arith, ek, eo, unset))
                | inr (n, set) ↦ elim (Bool-cases (ltb id n)) [
                  | inr above ↦ inl (ground (arith, ek, eo, set, above))
                  | inl below ↦
                      inr (p, keys, payload, refl, ek, eo, ground (arith, ek, eo, set, below))
                ]
              ]
            ]
      ]

  abbrev share_shelf : Shelf x (SigmaPackage x) x.Sign
  share_shelf = record {
    value = λ q. q.z;
    roster = λ f. f.signer_keys;
    get = λ f. f.sigmas;
    put = λ m f. record f { sigmas = m };
    take = take_sigma x;
    get-put = λ m f. refl;
    put-put = λ m m' f. refl;
    put-get = λ f. refl;
    roster-put = λ m f. refl;
    own-put = λ m f. refl;
    take_cases = take_sigma_cases;
  }

  take_public_key_cases :
      (codec : Codec (TracerPublicKeyPackage x)) (now id : ℕ) (m : Option (Message x.suite))
      (s : Combiner x)
      → Takes codec now id m s
          (take_public_key x codec now id m s).1
          s.tracer_keys
          (λ q. record s { tracer_pks = insert id q.pk s.tracer_pks })
  unfolding take_public_key load_tracer_public_key open_tracer_package keys_of_tracer
  take_public_key_cases codec now id none s = inl refl
  take_public_key_cases codec now id (some (hello _ _ _ _)) s = inl refl
  take_public_key_cases codec now id (some (broadcast _)) s = inl refl
  take_public_key_cases codec now id (some (secure p)) s =
      elim (Outcome-cases (keys_in_roster x s.tracer_keys id)) [
        | inr (inl (_, ek)) ↦ inl (ground (arith, ek))
        | inr (inr (_, ek)) ↦ inl (ground (arith, ek))
        | inl (keys, ek) ↦
            elim (Outcome-cases (open_secure x.suite codec s.transport_kp keys p now)) [
              | inr (inl (_, eo)) ↦ inl (ground (arith, ek, eo))
              | inr (inr (_, eo)) ↦ inl (ground (arith, ek, eo))
              | inl (payload, eo) ↦ inr (p, keys, payload, refl, ek, eo, ground (arith, ek, eo))
            ]
      ]

  abbrev report_shelf : Shelf x (TracerPublicKeyPackage x) x.Gt
  report_shelf = record {
    value = λ q. q.pk;
    roster = λ f. f.tracer_keys;
    get = λ f. f.tracer_pks;
    put = λ m f. record f { tracer_pks = m };
    take = take_public_key x;
    get-put = λ m f. refl;
    put-put = λ m m' f. refl;
    put-get = λ f. refl;
    roster-put = λ m f. refl;
    own-put = λ m f. refl;
    take_cases = take_public_key_cases;
  }

  -- If the round has the roster of the signers and the transport key of the Combiner: however the
  -- loop over the commitments ends, nothing else on file has changed, and the commitment of every
  -- signer `j` is the one from before, or what a package has that arrived on the stream of `j`,
  -- verifies, fresh, under the identity key that the roster has for `j`, and opens.
  pub collect_commitments_authentic :
      (round : Round x (CommitmentPackage x)) (s0 : Combiner x)
      → s0.signer_keys ≡ round.roster
      → s0.transport_kp ≡ round.own
      → let s = (collect_commitments x round.codec round.now round.arrivals round.streams s0).1 in
        (filed x s ≡ record (filed x s0) { commitments = s.commitments })
        × Sourced x round (λ p. p.commitment) s0.commitments s.commitments
  unfolding collect_commitments
  collect_commitments_authentic round s0 er eo = loop-At x commitment_shelf round s0 er eo

  -- If the round has the roster of the signers and the transport key of the Combiner: however the
  -- loop over the shares ends, nothing else on file has changed, and the share of every signer `j`
  -- is the one from before, or what such a package of `j` has.
  pub collect_sigmas_authentic :
      (round : Round x (SigmaPackage x)) (s0 : Combiner x)
      → s0.signer_keys ≡ round.roster
      → s0.transport_kp ≡ round.own
      → let s = (collect_sigmas x round.codec round.now round.arrivals round.streams s0).1 in
        (filed x s ≡ record (filed x s0) { sigmas = s.sigmas })
        × Sourced x round (λ p. p.z) s0.sigmas s.sigmas
  unfolding collect_sigmas
  collect_sigmas_authentic round s0 er eo = loop-At x share_shelf round s0 er eo

  -- If the round has the roster of the tracers and the transport key of the Combiner: however the
  -- loop over the reports ends, nothing else on file has changed, and the key of every tracer `j` is
  -- the one from before, or what such a package of `j` has.
  pub collect_public_keys_authentic :
      (round : Round x (TracerPublicKeyPackage x)) (s0 : Combiner x)
      → s0.tracer_keys ≡ round.roster
      → s0.transport_kp ≡ round.own
      → let s = (collect_public_keys x round.codec round.now round.arrivals round.streams s0).1 in
        (filed x s ≡ record (filed x s0) { tracer_pks = s.tracer_pks })
        × Sourced x round (λ p. p.pk) s0.tracer_pks s.tracer_pks
  unfolding collect_public_keys
  collect_public_keys_authentic round s0 er eo = loop-At x report_shelf round s0 er eo

-- ===== src/Combiner/Authenticity.antt =====
-- What is on file for an id changes only by a package that is signed with the key of that id.
use simulation_taps_tt.Base.{
  ℕ, ◌≡◌, refl, ◌⊎◌, inl, inr, true, Option, none, some, List, get_elem?, ◌<◌, Option-cases, ap,
  sym, subst, ◌∙◌, arith,
}
use simulation_taps_tt.Base.Map.{lookup, lookup-insert}
use simulation_taps_tt.Base.Outcome.{Outcome, ok}
use simulation_taps_tt.Base.Action.Loads.{load_cases}
use simulation_taps_tt.Crypto.{Codec, SecurePackage, ActorKeys, Error, verify_data, open_secure}
use simulation_taps_tt.Taps.{Taps}
use simulation_taps_tt.Payloads.{CommitmentPackage, SigmaPackage}
use simulation_taps_tt.Combiner.State.{Combiner}
use simulation_taps_tt.Combiner.Intake.{
  handle_commitment, handle_sigma, keys_in_roster, keys_of_signer, load_commitment, load_sigma,
}

dec_eq_lt : (id j n : ℕ) → ((j ≡ id) × (j < n)) ⊎ ((j ≡ id → j < n → ⊥))
dec_eq_lt id j n = ground arith

module _ (x : Taps) where
  -- The package verifies under the identity key that the roster has for `id`.
  abbrev pub SignedBy : Option (List (ActorKeys x.suite)) → ℕ → SecurePackage x.suite → ℕ → Type 0
  SignedBy roster id p now =
      (ks : List (ActorKeys x.suite)) × (keys : ActorKeys x.suite) × (roster ≡ some ks)
      × (get_elem? ks id ≡ some keys)
      × (verify_data x.suite keys.identity_pk p now ≡ true)

  pub open_from_roster :
      {A : Type 0} (codec : Codec A) (s : Combiner x) (roster : Option (List (ActorKeys x.suite)))
      (id : ℕ) (p : SecurePackage x.suite) (now : ℕ) {keys : ActorKeys x.suite} {a : A}
      → keys_in_roster x roster id ≡ ok keys
      → open_secure x.suite codec s.transport_kp keys p now ≡ ok a
      → SignedBy roster id p now
  unfolding keys_in_roster open_secure
  open_from_roster codec s none id p now e o = cc
  open_from_roster codec s (some ks) id p now {keys} e o =
      (ks, keys, refl, ground arith, ground arith)

  handle_commitment_at :
      (id j : ℕ) (comm : x.Commitment) (s : Combiner x)
      → (lookup j (handle_commitment x id comm s).commitments ≡ lookup j s.commitments)
        ⊎ ((j ≡ id) × ((n : ℕ) × (s.n ≡ some n) × (j < n)))
  unfolding handle_commitment
  handle_commitment_at id j comm s = elim (Option-cases s.n) [
    | inl unset ↦ inl (ground (arith, unset))
    | inr (n, set) ↦ elim (dec_eq_lt id j n) [
      | inl (e, h) ↦ inr (e, (n, set, h))
      | inr other ↦ inl (ground (arith, set, other, lookup-insert j id comm s.commitments))
    ]
  ]

  handle_sigma_at :
      (id j : ℕ) (z : x.Sign) (s : Combiner x)
      → (lookup j (handle_sigma x id z s).sigmas ≡ lookup j s.sigmas)
        ⊎ ((j ≡ id) × ((n : ℕ) × (s.n ≡ some n) × (j < n)))
  unfolding handle_sigma
  handle_sigma_at id j z s = elim (Option-cases s.n) [
    | inl unset ↦ inl (ground (arith, unset))
    | inr (n, set) ↦ elim (dec_eq_lt id j n) [
      | inl (e, h) ↦ inr (e, (n, set, h))
      | inr other ↦ inl (ground (arith, set, other, lookup-insert j id z s.sigmas))
    ]
  ]

  -- A call of `load_commitment` leaves the commitment of every signer `j` as it was, unless it was
  -- called for `j`, `j` is below the participant count, and the package verifies, fresh, under the
  -- identity key that the Authority's roster has for `j`. The call succeeds, or the whole state is
  -- as it was.
  pub load_commitment_authentic :
      (codec : Codec (CommitmentPackage x)) (id j : ℕ) (p : SecurePackage x.suite) (now : ℕ)
      (s : Combiner x)
      → let (r, s') = load_commitment x codec id p now s in
        ((lookup j s'.commitments ≡ lookup j s.commitments)
          ⊎ ((j ≡ id) × ((n : ℕ) × (s.n ≡ some n) × (j < n)) × SignedBy s.signer_keys j p now))
        × ((r ≡ ok tt) ⊎ (s' ≡ s))
  unfolding load_commitment keys_of_signer
  load_commitment_authentic codec id j p now s =
      elim (load_cases (keys_of_signer x id)
        (λ keys s'. open_secure x.suite codec s'.transport_kp keys p now)
        (λ config. handle_commitment x id config.commitment) s) [
          | inl (same, failed) ↦
              (inl (ap (λ (s' : Combiner x). lookup j s'.commitments) same), inr same)
          | inr (keys, config, ek, eo, e) ↦
              let signed = open_from_roster codec s s.signer_keys id p now ek eo in
              (
                elim (handle_commitment_at id j config.commitment s) [
                  | inl kept ↦ inl (
                      ap (λ (t : Outcome Error (Unit {0}) × Combiner x). lookup j t.1.commitments) e
                      ∙ kept)
                  | inr (same, room) ↦
                      inr
                        (same, room, subst (λ i. SignedBy s.signer_keys i p now) (sym same) signed)
                ],
                inl (ap (λ (t : Outcome Error (Unit {0}) × Combiner x). t.0) e),
              )
        ]

  -- The same for the signature shares: a call of `load_sigma` leaves the share of every signer `j`
  -- as it was, unless it was called for `j`, `j` is below the participant count, and the package
  -- verifies, fresh, under the identity key that the roster has for `j`. The call
  -- succeeds, or the whole state is as it was.
  pub load_sigma_authentic :
      (codec : Codec (SigmaPackage x)) (id j : ℕ) (p : SecurePackage x.suite) (now : ℕ)
      (s : Combiner x)
      → let (r, s') = load_sigma x codec id p now s in
        ((lookup j s'.sigmas ≡ lookup j s.sigmas)
          ⊎ ((j ≡ id) × ((n : ℕ) × (s.n ≡ some n) × (j < n)) × SignedBy s.signer_keys j p now))
        × ((r ≡ ok tt) ⊎ (s' ≡ s))
  unfolding load_sigma keys_of_signer
  load_sigma_authentic codec id j p now s =
      elim (load_cases (keys_of_signer x id)
        (λ keys s'. open_secure x.suite codec s'.transport_kp keys p now)
        (λ config. handle_sigma x id config.z) s) [
          | inl (same, failed) ↦ (inl (ap (λ (s' : Combiner x). lookup j s'.sigmas) same), inr same)
          | inr (keys, config, ek, eo, e) ↦
              let signed = open_from_roster codec s s.signer_keys id p now ek eo in
              (
                elim (handle_sigma_at id j config.z s) [
                  | inl kept ↦ inl (
                      ap (λ (t : Outcome Error (Unit {0}) × Combiner x). lookup j t.1.sigmas) e
                      ∙ kept)
                  | inr (same, room) ↦
                      inr
                        (same, room, subst (λ i. SignedBy s.signer_keys i p now) (sym same) signed)
                ],
                inl (ap (λ (t : Outcome Error (Unit {0}) × Combiner x). t.0) e),
              )
        ]

-- ===== src/Combiner/Intake.antt =====
-- What the Combiner takes in: its configuration, and the packages of the signers and tracers. The
-- last argument of a loader is the clock.
use simulation_taps_tt.Base.{
  ℕ, Option, none, some, List, length, get_elem?, ltb, ◌==◌, if◌then◌else◌,
}
use simulation_taps_tt.Base.Map.{insert}
use simulation_taps_tt.Base.Outcome
use simulation_taps_tt.Base.Outcome.{Outcome, ok_or, guard}
use simulation_taps_tt.Base.Action.{Action, reads, modify, lift, ◌>>=◌, ◌>>◌}
use simulation_taps_tt.Crypto.{Codec, SecurePackage, ActorKeys, Error, invalid_message, open_secure}
use simulation_taps_tt.Network.{AuthorityAnchor}
use simulation_taps_tt.Taps.{Taps}
use simulation_taps_tt.Authority.{CombinerPackage}
use simulation_taps_tt.Payloads.{TracerPublicKeyPackage, CommitmentPackage, SigmaPackage}
use simulation_taps_tt.Combiner.State.{Combiner}

module _ (x : Taps) where
  unfoldable pub load_from_authority :
      Codec (CombinerPackage x)
      → SecurePackage x.suite
      → AuthorityAnchor x.suite
      → ℕ
      → Action (Combiner x) Error (Unit {0})
  load_from_authority codec secure_pkg anchor now = do
    config ← reads (λ s.
        open_secure x.suite codec s.transport_kp
          (record { identity_pk = anchor.identity_pk; transport_pk = anchor.transport_pk })
          secure_pkg now)
    lift (guard (length config.signer_keys == config.n) invalid_message)
    lift (guard (length config.tracer_keys == config.n3) invalid_message)
    modify (λ s. record s {
      signer_keys = some config.signer_keys;
      tracer_keys = some config.tracer_keys;
      pk_i = some config.pk_i;
      quorum = some config.quo;
      n = some config.n;
      t = some config.t;
      n3 = some config.n3;
      te = some config.te;
      taps_kp = some config.kp_cs;
    })

  unfoldable pub handle_commitment : ℕ → x.Commitment → Combiner x → Combiner x
  handle_commitment signer_id comm s = elim s.n [
    | some participant_count ↦
        if ltb signer_id participant_count
        then record s { commitments = insert signer_id comm s.commitments }
        else s
    | none ↦ s
  ]

  unfoldable pub handle_sigma : ℕ → x.Sign → Combiner x → Combiner x
  handle_sigma signer_id signature_share s = elim s.n [
    | some participant_count ↦
        if ltb signer_id participant_count
        then record s { sigmas = insert signer_id signature_share s.sigmas }
        else s
    | none ↦ s
  ]

  -- `roster.as_ref().ok_or(e)?.get(id).copied().ok_or(e)`
  unfoldable pub keys_in_roster :
      Option (List (ActorKeys x.suite)) → ℕ → Outcome Error (ActorKeys x.suite)
  keys_in_roster roster id =
      Outcome.◌>>=◌ (ok_or invalid_message roster) λ keys. ok_or invalid_message (get_elem? keys id)

  unfoldable pub keys_of_signer : ℕ → Combiner x → Outcome Error (ActorKeys x.suite)
  unfolding keys_in_roster
  keys_of_signer id s = keys_in_roster s.signer_keys id

  unfoldable pub keys_of_tracer : ℕ → Combiner x → Outcome Error (ActorKeys x.suite)
  unfolding keys_in_roster
  keys_of_tracer id s = keys_in_roster s.tracer_keys id

  unfoldable pub load_commitment :
      Codec (CommitmentPackage x)
      → ℕ
      → SecurePackage x.suite
      → ℕ
      → Action (Combiner x) Error (Unit {0})
  load_commitment codec signer_id secure_pkg now = do
    keys ← reads (keys_of_signer signer_id)
    config ← reads (λ s. open_secure x.suite codec s.transport_kp keys secure_pkg now)
    modify (handle_commitment signer_id config.commitment)

  unfoldable pub load_sigma :
      Codec (SigmaPackage x) → ℕ → SecurePackage x.suite → ℕ → Action (Combiner x) Error (Unit {0})
  load_sigma codec signer_id secure_pkg now = do
    keys ← reads (keys_of_signer signer_id)
    config ← reads (λ s. open_secure x.suite codec s.transport_kp keys secure_pkg now)
    modify (handle_sigma signer_id config.z)

  unfoldable pub open_tracer_package :
      {A : Type 0} → Codec A → ℕ → SecurePackage x.suite → ℕ → Combiner x → Outcome Error A
  open_tracer_package codec id secure_pkg now s =
      Outcome.◌>>=◌ (keys_of_tracer id s)
        λ keys. open_secure x.suite codec s.transport_kp keys secure_pkg now

  unfoldable pub load_tracer_public_key :
      Codec (TracerPublicKeyPackage x)
      → ℕ
      → SecurePackage x.suite
      → ℕ
      → Action (Combiner x) Error (Unit {0})
  unfolding open_tracer_package
  load_tracer_public_key codec tracer_id secure_pkg now = do
    pkg ← reads (open_tracer_package codec tracer_id secure_pkg now)
    modify (λ s. record s { tracer_pks = insert tracer_id pkg.pk s.tracer_pks })

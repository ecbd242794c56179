-- ===== src/Tracer/KeyGeneration.antt =====
-- The distributed key generation, step by step.
use simulation_taps_tt.Base.{ℕ, ◌+◌, none, some, List, [], ◌∷◌, Bytes, not, ◌==◌, if◌then◌else◌}
use simulation_taps_tt.Base.Map.{Map, lookup, insert, keys}
use simulation_taps_tt.Base.Outcome.{Outcome, ok, err, panic, expect, ok_or}
use simulation_taps_tt.Base.Outcome
use simulation_taps_tt.Base.Action.{Action, reads, modify, lift, ◌>>=◌, ◌>>◌}
use simulation_taps_tt.Crypto.{Codec, SecurePackage, BroadcastPackage, Error, invalid_message}
use simulation_taps_tt.Dkg.{Dkg, TracerError, message}
use simulation_taps_tt.Tracer.State.{Tracer, dkg_index}
use simulation_taps_tt.Tracer.Peers.{
  DkgSharePayload, DkgRound1Payload, seal_for_peer, open_from_peer, sign_for_peers,
  open_peer_broadcast,
}

module _ (x : Dkg) where
  -- One round of the loop of `load_dkg_round1`.
  unfoldable pub record_broadcast : ℕ → ℕ → x.DkgBroadcast → Map x.DkgBroadcast → Map x.DkgBroadcast
  record_broadcast te id b on_file =
      if not (x.broadcast_index b == id + 1)
      then on_file
      else if x.verify_broadcast b te
      then insert (id + 1) b on_file
      else on_file

  unfoldable pub record_broadcasts :
      ℕ → List (ℕ × x.DkgBroadcast) → Map x.DkgBroadcast → Map x.DkgBroadcast
  record_broadcasts te [] on_file = on_file
  record_broadcasts te ((id, b) ∷ later) on_file =
      record_broadcasts te later (record_broadcast te id b on_file)

  unfoldable pub load_dkg_round1 :
      {E : Type 0} → List (ℕ × x.DkgBroadcast) → Action (Tracer x) E (Unit {0})
  load_dkg_round1 broadcasts = do
    te ← reads (λ s. expect "t_e not set" s.te)
    modify (λ s. record s { dkg_broadcasts = record_broadcasts te broadcasts s.dkg_broadcasts })

  -- The broadcasts that authenticate. Opening one never panics, so that all else is an error.
  unfoldable pub open_broadcasts :
      Codec (DkgRound1Payload x)
      → Tracer x
      → ℕ
      → List (ℕ × BroadcastPackage x.suite)
      → List (ℕ × x.DkgBroadcast)
  open_broadcasts codec s now [] = []
  open_broadcasts codec s now ((id, pkg) ∷ later) =
      let rest = open_broadcasts codec s now later in
      elim (open_peer_broadcast x codec s id pkg now) [
        | ok payload ↦ (id, payload.broadcast) ∷ rest
        | err _ ↦ rest
        | panic _ ↦ rest
      ]

  unfoldable pub load_dkg_round1_from_peers :
      {E : Type 0}
      → Codec (DkgRound1Payload x)
      → List (ℕ × BroadcastPackage x.suite)
      → ℕ
      → Action (Tracer x) E (Unit {0})
  unfolding load_dkg_round1
  load_dkg_round1_from_peers codec packages now = do
    broadcasts ← reads (λ s. ok (open_broadcasts codec s now packages))
    load_dkg_round1 broadcasts

  unfoldable pub start_dkg :
      {E : Type 0}
      → Codec (DkgRound1Payload x)
      → x.Seed
      → Bytes
      → ℕ
      → Action (Tracer x) E (BroadcastPackage x.suite)
  unfolding load_dkg_round1 dkg_index
  start_dkg codec seed nonce now = do
    te ← reads (λ s. expect "t_e not set" s.te)
    n3 ← reads (λ s. expect "n_3 not set" s.n3)
    my_index ← reads (dkg_index x)
    participant ← lift (expect "Invalid DKG parameters" (x.participant_new my_index te n3 seed))
    modify (λ s. record s { dkg_participant = some participant })
    own_id ← reads (λ s. expect "Tracer not bootstrapped" s.index)
    load_dkg_round1 ((own_id, x.participant_broadcast participant) ∷ [])
    reads (λ s.
        sign_for_peers x codec s (record { broadcast = x.participant_broadcast participant }) nonce
          now)

  unfoldable pub dkg_share_for_peer :
      Codec (DkgSharePayload x) → Tracer x → ℕ → Bytes → ℕ → Outcome Error (SecurePackage x.suite)
  dkg_share_for_peer codec s recipient_id random now =
      Outcome.◌>>=◌ (ok_or invalid_message s.dkg_participant) λ participant.
        seal_for_peer x codec s recipient_id
          (record { share = x.share_for participant (recipient_id + 1) }) random now

  -- A share is kept if it matches the dealer's broadcast on file.
  unfoldable pub record_share : ℕ → Map x.DkgBroadcast → ℕ → x.Fq → Map x.Fq → Map x.Fq
  record_share my_index broadcasts dealer share received = elim (lookup dealer broadcasts) [
    | some dealer_broadcast ↦
        if x.verify_share dealer_broadcast share my_index
        then insert dealer share received
        else received
    | none ↦ received
  ]

  unfoldable pub load_own_dkg_share : {E : Type 0} → Action (Tracer x) E (Unit {0})
  unfolding dkg_index record_share
  load_own_dkg_share = do
    my_index ← reads (dkg_index x)
    participant ← reads (λ s. expect "DKG not started for this tracer" s.dkg_participant)
    modify (λ s. record s {
      dkg_shares_received =
          record_share my_index s.dkg_broadcasts my_index (x.share_for participant my_index)
            s.dkg_shares_received;
    })

  -- The loop of `load_dkg_inbox`: only the shares change.
  unfoldable pub record_inbox :
      Codec (DkgSharePayload x)
      → Tracer x
      → ℕ
      → ℕ
      → List (ℕ × SecurePackage x.suite)
      → Map x.Fq
      → Map x.Fq
  unfolding record_share
  record_inbox codec s now my_index [] received = received
  record_inbox codec s now my_index ((from_id, secure_pkg) ∷ later) received =
      record_inbox codec s now my_index later
        (elim (open_from_peer x codec s from_id secure_pkg now) [
          | ok payload ↦ record_share my_index s.dkg_broadcasts (from_id + 1) payload.share received
          | err _ ↦ received
          | panic _ ↦ received
        ])

  unfoldable pub load_dkg_inbox :
      {E : Type 0}
      → Codec (DkgSharePayload x)
      → List (ℕ × SecurePackage x.suite)
      → ℕ
      → Action (Tracer x) E (Unit {0})
  unfolding dkg_index record_inbox
  load_dkg_inbox codec items now = do
    my_index ← reads (dkg_index x)
    modify (λ s. record s {
      dkg_shares_received = record_inbox codec s now my_index items s.dkg_shares_received;
    })

  unfoldable pub finalize_dkg : Action (Tracer x) TracerError (Unit {0})
  finalize_dkg = do
    participant ← reads (λ s. ok_or (message "DKG not started for this tracer") s.dkg_participant)
    share ← reads (λ s.
        x.participant_finalize participant (keys s.dkg_shares_received) s.dkg_broadcasts
          s.dkg_shares_received)
    modify
        (λ s. record s { pk_e = some (x.pk_e_as_public_key share); tracer_key_share = some share })
    pk_i ← reads (λ s. ok_or (message "pk_i not set") s.pk_i)
    pk_cs ← reads (λ s. ok_or (message "pk_cs not set") s.pk_cs)
    pk_e ← reads (λ s. ok_or (message "pk_e not set") s.pk_e)
    modify (λ s. record s { pk = some (x.from_public_keys pk_i pk_cs pk_e) })

  unfoldable pub own_public_key : {E : Type 0} → Tracer x → Outcome E x.Gt
  own_public_key s =
      Outcome.◌>>=◌ (expect "DKG not finalized" s.tracer_key_share) λ share. ok (x.share_pk share)

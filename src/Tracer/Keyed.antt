-- ===== src/Tracer/Keyed.antt =====
-- A run of src/bin/tracer.rs, phase 3: each step of the key generation.
use simulation_taps_tt.Base.{ℕ, ◌+◌, ◌≡◌, refl, ap, subst, some, List, [], ◌∷◌, inl, inr, arith}
use simulation_taps_tt.Base.Map.{keys}
use simulation_taps_tt.Base.Outcome.{Outcome, ok, err}
use simulation_taps_tt.Base.Action.Ensures.{Ensures, ensured_at_end}
use simulation_taps_tt.Crypto.{SecurePackage, BroadcastPackage}
use simulation_taps_tt.Crypto.NoPanic.{NeverPanics-cases, IsTotal, sign_broadcast-NeverPanics}
use simulation_taps_tt.Authority
use simulation_taps_tt.Dkg.{Dkg}
use simulation_taps_tt.Tracer.State.{Tracer}
use simulation_taps_tt.Tracer.Peers.{sign_for_peers}
use simulation_taps_tt.Tracer.KeyGeneration.{
  start_dkg, load_dkg_round1, load_dkg_round1_from_peers, open_broadcasts, load_own_dkg_share,
  load_dkg_inbox, finalize_dkg, record_broadcasts, record_inbox, record_share,
}
use simulation_taps_tt.Tracer.Program.{MainError, tracing, attempt, Codecs, Draws}
use simulation_taps_tt.Tracer.Qualified.{
  IsSound, dkg_index_known, Fresh, start_dkg-Fresh, load_dkg_round1-IsSound,
  load_own_dkg_share-IsSound, load_dkg_inbox-IsSound,
}
use simulation_taps_tt.Tracer.Robust.{IsQuiet}
use simulation_taps_tt.Tracer.Session.{Settings, Has}

-- A tracer with nothing on file.
pub fresh :
    (x : Dkg) (config : Authority.TracerPackage x.taps) (s : Tracer x)
    → Has x config s
    → s.dkg_broadcasts ≡ []
    → s.dkg_shares_received ≡ []
    → Fresh x config.te (config.index + 1) s
fresh x config s has no_broadcast no_share = (
  record {
    threshold = ap (λ (q : Settings x). q.te) has;
    own = (config.index, ap (λ (q : Settings x). q.index) has, refl);
    broadcasts = λ k b h. absurd (cc (h, no_broadcast));
    shares = λ k share h. absurd (cc (h, no_share));
  },
  no_share,
)

module _ (x : Dkg) (config : Authority.TracerPackage x.taps) where
  -- The configured tracer is in the key generation, and what it has on file is sound.
  pub record IsUnderway (s : Tracer x) : Type 0 where
    pub configured : Has x config s
    pub sound : IsSound x config.te (config.index + 1) s
    pub participant : x.DkgParticipant
    pub started : s.dkg_participant ≡ some participant

  -- The key generation has ended with this share, for the dealers whose share is on file.
  pub record IsKeyed (s : Tracer x) : Type 0 where
    pub underway : IsUnderway s
    pub share : x.TracerKeyShare
    pub known_share : s.tracer_key_share ≡ some share
    pub finalized :
        x.participant_finalize underway.participant
          (keys s.dkg_shares_received)
          s.dkg_broadcasts
          s.dkg_shares_received
        ≡ ok share
    pub known_pk_e : s.pk_e ≡ some (x.pk_e_as_public_key share)
    pub known_pk :
        s.pk ≡ some (x.from_public_keys config.pk_i config.pk_cs (x.pk_e_as_public_key share))

  -- As long as no share is on file.
  abbrev pub IsAtRound1 : Tracer x → Type 0
  IsAtRound1 s = IsUnderway s × (s.dkg_shares_received ≡ [])

  module _ (codecs : Codecs x) (draws : Draws x) where
    pub start_dkg-Ensures :
        (s : Tracer x) (p : x.DkgParticipant)
        → IsTotal codecs.round1
        → x.participant_new (config.index + 1) config.te config.n3 draws.seed ≡ some p
        → Has x config s
        → Fresh x config.te (config.index + 1) s
        → Ensures
            (λ _ s'. IsAtRound1 s')
            (start_dkg x {E = MainError} codecs.round1 draws.seed draws.round1_nonce
              draws.round1_time)
            s
    unfolding start_dkg load_dkg_round1 sign_for_peers
    start_dkg-Ensures s p total made has fresh =
        let te = config.te in
        let me = config.index + 1 in
        let known_te : s.te ≡ some te = ap (λ (q : Settings x). q.te) has in
        let known_n3 : s.n3 ≡ some config.n3 = ap (λ (q : Settings x). q.n3) has in
        let known_index : s.index ≡ some config.index = ap (λ (q : Settings x). q.index) has in
        let step =
          start_dkg x {E = MainError} codecs.round1 draws.seed draws.round1_nonce
            draws.round1_time in
        let s' : Tracer x = record s {
          dkg_participant = some p;
          dkg_broadcasts =
              record_broadcasts x te ((config.index, x.participant_broadcast p) ∷ [])
                s.dkg_broadcasts;
        } in
        let signed =
          sign_for_peers x codecs.round1 {E = MainError} s'
            (record { broadcast = x.participant_broadcast p }) draws.round1_nonce
            draws.round1_time in
        let e : step s ≡ (signed, s') = ground (
          arith,
          known_te,
          known_n3,
          known_index,
          made,
          dkg_index_known x te me s fresh.0 MainError,
        ) in
        let sound =
          subst (λ (q : Outcome MainError (BroadcastPackage x.suite) × Tracer x). Fresh x te me q.1)
            e
            (start_dkg-Fresh x te me MainError codecs.round1 draws.seed draws.round1_nonce
              draws.round1_time s fresh) in
        let at : IsAtRound1 s' = (
          record { configured = has; sound = sound.0; participant = p; started = refl },
          sound.1,
        ) in
        elim (NeverPanics-cases signed (
          sign_broadcast-NeverPanics x.suite codecs.round1 MainError s.identity_kp
            (record { broadcast = x.participant_broadcast p }) draws.round1_nonce draws.round1_time
            total)) [
              | inl (a, done) ↦
                  let e' : step s ≡ (ok a, s') = cc (e, done) in
                  ensured_at_end (λ _ s''. IsAtRound1 s'') step s e' at
              | inr (f, done) ↦
                  let e' : step s ≡ (err f, s') = cc (e, done) in
                  ensured_at_end (λ _ s''. IsAtRound1 s'') step s e' tt
            ]

    pub load_dkg_round1-Ensures :
        (packages : List (ℕ × BroadcastPackage x.suite)) (s : Tracer x)
        → IsAtRound1 s
        → Ensures
            (λ _ s'. IsUnderway s')
            (load_dkg_round1_from_peers x {E = MainError} codecs.round1 packages
              draws.round1_received)
            s
    unfolding load_dkg_round1_from_peers load_dkg_round1
    load_dkg_round1-Ensures packages s (u, none_yet) =
        let known_te : s.te ≡ some config.te = ap (λ (q : Settings x). q.te) u.configured in
        let bs = open_broadcasts x codecs.round1 s draws.round1_received packages in
        let s' : Tracer x = record s {
          dkg_broadcasts = record_broadcasts x config.te bs s.dkg_broadcasts;
        } in
        let step =
          load_dkg_round1_from_peers x {E = MainError} codecs.round1 packages
            draws.round1_received in
        let e : step s ≡ (ok tt, s') = ground (arith, known_te) in
        let e1 : load_dkg_round1 x {E = MainError} bs s ≡ (ok tt, s') = ground (arith, known_te) in
        let sound =
          subst
            (λ (q : Outcome MainError (Unit {0}) × Tracer x).
              IsSound x config.te (config.index + 1) q.1)
            e1
            (load_dkg_round1-IsSound x config.te (config.index + 1) s u.sound MainError bs
              none_yet).0 in
        ensured_at_end (λ _ s''. IsUnderway s'') step s e
          (record {
            configured = u.configured;
            sound = sound;
            participant = u.participant;
            started = u.started;
          })

    pub load_own_dkg_share-Ensures :
        (s : Tracer x)
        → IsUnderway s
        → Ensures (λ _ s'. IsUnderway s') (load_own_dkg_share x {E = MainError}) s
    unfolding load_own_dkg_share
    load_own_dkg_share-Ensures s u =
        let me = config.index + 1 in
        let s' : Tracer x = record s {
          dkg_shares_received =
              record_share x me s.dkg_broadcasts me (x.share_for u.participant me)
                s.dkg_shares_received;
        } in
        let started = u.started in
        let e : load_own_dkg_share x {E = MainError} s ≡ (ok tt, s') =
          ground (arith, started, dkg_index_known x config.te me s u.sound MainError) in
        let sound =
          subst (λ (q : Outcome MainError (Unit {0}) × Tracer x). IsSound x config.te me q.1) e
            (load_own_dkg_share-IsSound x config.te me s u.sound MainError) in
        ensured_at_end (λ _ s''. IsUnderway s'') (load_own_dkg_share x {E = MainError}) s e
          (record {
            configured = u.configured;
            sound = sound;
            participant = u.participant;
            started = started;
          })

    pub load_dkg_inbox-Ensures :
        (items : List (ℕ × SecurePackage x.suite)) (s : Tracer x)
        → IsUnderway s
        → Ensures
            (λ _ s'. IsUnderway s')
            (load_dkg_inbox x {E = MainError} codecs.share items draws.share_received)
            s
    unfolding load_dkg_inbox
    load_dkg_inbox-Ensures items s u =
        let me = config.index + 1 in
        let s' : Tracer x = record s {
          dkg_shares_received =
              record_inbox x codecs.share s draws.share_received me items s.dkg_shares_received;
        } in
        let step = load_dkg_inbox x {E = MainError} codecs.share items draws.share_received in
        let e : step s ≡ (ok tt, s') =
          ground (arith, dkg_index_known x config.te me s u.sound MainError) in
        let sound =
          subst (λ (q : Outcome MainError (Unit {0}) × Tracer x). IsSound x config.te me q.1) e
            (load_dkg_inbox-IsSound x config.te me s u.sound MainError codecs.share items
              draws.share_received) in
        ensured_at_end (λ _ s''. IsUnderway s'') step s e
          (record {
            configured = u.configured;
            sound = sound;
            participant = u.participant;
            started = u.started;
          })

    pub finalize_dkg-Ensures :
        (s : Tracer x)
        → IsQuiet x
        → IsUnderway s
        → Ensures (λ _ s'. IsKeyed s') (attempt tracing (finalize_dkg x)) s
    unfolding finalize_dkg
    finalize_dkg-Ensures s quiet u =
        let started = u.started in
        let known_pk_i : s.pk_i ≡ some config.pk_i = ap (λ (q : Settings x). q.pk_i) u.configured in
        let known_pk_cs : s.pk_cs ≡ some config.pk_cs =
          ap (λ (q : Settings x). q.pk_cs) u.configured in
        let last =
          x.participant_finalize u.participant (keys s.dkg_shares_received) s.dkg_broadcasts
            s.dkg_shares_received in
        elim (NeverPanics-cases last (
          quiet.finalize u.participant (keys s.dkg_shares_received) s.dkg_broadcasts
            s.dkg_shares_received)) [
              | inr (f, failed) ↦
                  let e : attempt tracing (finalize_dkg x) s ≡ (err (tracing f), s) =
                    ground (arith, started, failed) in
                  ensured_at_end (λ _ s'. IsKeyed s') (attempt tracing (finalize_dkg x)) s e tt
              | inl (share, done) ↦
                  let e : attempt tracing (finalize_dkg x) s ≡ (
                    ok tt,
                    record s {
                      pk_e = some (x.pk_e_as_public_key share);
                      tracer_key_share = some share;
                      pk = some (
                          x.from_public_keys config.pk_i config.pk_cs (x.pk_e_as_public_key share));
                    },
                  ) =
                    ground (arith, started, done, known_pk_i, known_pk_cs) in
                  let v = u.sound in
                  ensured_at_end (λ _ s'. IsKeyed s') (attempt tracing (finalize_dkg x)) s e
                    (record {
                      underway = record {
                        configured = u.configured;
                        sound = record {
                          threshold = v.threshold;
                          own = v.own;
                          broadcasts = v.broadcasts;
                          shares = v.shares;
                        };
                        participant = u.participant;
                        started = started;
                      };
                      share = share;
                      known_share = refl;
                      finalized = done;
                      known_pk_e = refl;
                      known_pk = refl;
                    })
            ]

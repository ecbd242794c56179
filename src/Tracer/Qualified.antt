-- ===== src/Tracer/Qualified.antt =====
-- The qualified set: only dealers whose proof of knowledge and whose share verify.
use simulation_taps_tt.Base.{
  ℕ, ◌+◌, ◌≡◌, Bytes, true, some, List, [], ◌∷◌, Bool-cases, Option-cases, inl, inr, arith,
}
use native.Mathlib.Decide.{ℕ_discrete}
use simulation_taps_tt.Base.Map.{Map, lookup, lookup-insert}
use simulation_taps_tt.Base.Outcome.{Outcome, ok, err, panic}
use simulation_taps_tt.Crypto.{Codec, SecurePackage, BroadcastPackage, Error}
use simulation_taps_tt.Base.Action.Keeps.{Keeps-bind}
use simulation_taps_tt.Base.Action.{Action, ◌>>◌}
use simulation_taps_tt.Network.{Message}
use simulation_taps_tt.Dkg.{Dkg, TracerError}
use simulation_taps_tt.Tracer.Node.{dkg_rounds, keep_broadcasts, keep_secure}
use simulation_taps_tt.Tracer.State.{Tracer, dkg_index}
use simulation_taps_tt.Tracer.Peers.{DkgSharePayload, DkgRound1Payload, open_from_peer}
use simulation_taps_tt.Tracer.KeyGeneration.{
  record_broadcast, record_broadcasts, load_dkg_round1, load_dkg_round1_from_peers, open_broadcasts,
  start_dkg, record_share, load_own_dkg_share, record_inbox, load_dkg_inbox,
}

module _ (x : Dkg) (te me : ℕ) where
  -- Every broadcast on file names the party it is filed under, and its proof verifies.
  abbrev pub SoundBroadcasts : Map x.DkgBroadcast → Type 0
  SoundBroadcasts on_file =
      (k : ℕ) (b : x.DkgBroadcast)
      → lookup k on_file ≡ some b
      → (x.broadcast_index b ≡ k) × (x.verify_broadcast b te ≡ true)

  -- Every share on file matches the dealer's broadcast on file.
  abbrev pub SoundShares : Map x.DkgBroadcast → Map x.Fq → Type 0
  SoundShares on_file received =
      (k : ℕ) (share : x.Fq)
      → lookup k received ≡ some share
      → (b : x.DkgBroadcast) × (lookup k on_file ≡ some b) × (x.verify_share b share me ≡ true)

  record_broadcast-Sound :
      (id : ℕ) (b : x.DkgBroadcast) (on_file : Map x.DkgBroadcast)
      → SoundBroadcasts on_file
      → SoundBroadcasts (record_broadcast x te id b on_file)
  unfolding record_broadcast
  record_broadcast-Sound id b on_file h k b' e =
      ground (arith, h k b', lookup-insert k (id + 1) b on_file)

  record_broadcasts-Sound :
      (bs : List (ℕ × x.DkgBroadcast)) (on_file : Map x.DkgBroadcast)
      → SoundBroadcasts on_file
      → SoundBroadcasts (record_broadcasts x te bs on_file)
  unfolding record_broadcasts
  record_broadcasts-Sound [] on_file h = h
  record_broadcasts-Sound ((id, b) ∷ bs) on_file h =
      record_broadcasts-Sound bs _ (record_broadcast-Sound id b on_file h)

  record_share-Sound :
      (on_file : Map x.DkgBroadcast) (dealer : ℕ) (share : x.Fq) (received : Map x.Fq)
      → SoundShares on_file received
      → SoundShares on_file (record_share x me on_file dealer share received)
  unfolding record_share
  record_share-Sound on_file dealer share received h k share' e =
      elim (Option-cases (lookup dealer on_file)) [
        | inl missing ↦ h k share' (ground (arith, missing))
        | inr (b, found) ↦ elim (Bool-cases (x.verify_share b share me)) [
          | inl good ↦ elim (ℕ_discrete k dealer) [
            | yes same ↦ (
              b,
              ground (arith, found, same),
              ground (arith, found, good, same, lookup-insert k dealer share received),
            )
            | no other ↦
                h k share'
                  (ground (arith, found, good, other, lookup-insert k dealer share received))
          ]
          | inr bad ↦ h k share' (ground (arith, found, bad))
        ]
      ]

  record_inbox-Sound :
      (codec : Codec (DkgSharePayload x)) (s : Tracer x) (now : ℕ)
      (items : List (ℕ × SecurePackage x.suite)) (received : Map x.Fq)
      → SoundShares s.dkg_broadcasts received
      → SoundShares s.dkg_broadcasts (record_inbox x codec s now me items received)
  unfolding record_inbox
  record_inbox-Sound codec s now [] received h = h
  record_inbox-Sound codec s now ((id, p) ∷ items) received h =
      record_inbox-Sound codec s now items _ (kept (open_from_peer x codec s id p now))
    where
      kept :
          (o : Outcome Error (DkgSharePayload x))
          → SoundShares s.dkg_broadcasts (elim o [
            | ok payload ↦ record_share x me s.dkg_broadcasts (id + 1) payload.share received
            | err _ ↦ received
            | panic _ ↦ received
          ])
      kept (ok payload) = record_share-Sound s.dkg_broadcasts (id + 1) payload.share received h
      kept (err _) = h
      kept (panic _) = h

  -- The tracer has its index and threshold, and what it has on file is sound.
  pub record IsSound (s : Tracer x) : Type 0 where
    pub threshold : s.te ≡ some te
    pub own : (i : ℕ) × (s.index ≡ some i) × (i + 1 ≡ me)
    pub broadcasts : SoundBroadcasts s.dkg_broadcasts
    pub shares : SoundShares s.dkg_broadcasts s.dkg_shares_received

  module _ (s : Tracer x) (v : IsSound s) (E : Type 0) where
    pub dkg_index_known : dkg_index x {E = E} s ≡ ok me
    unfolding dkg_index
    dkg_index_known = let (i, e, f) = v.own in ground (arith, e, f)

    -- While no share is on file, broadcasts can be recorded.
    pub load_dkg_round1-IsSound :
        (bs : List (ℕ × x.DkgBroadcast))
        → s.dkg_shares_received ≡ []
        → IsSound (load_dkg_round1 x {E = E} bs s).1
          × ((load_dkg_round1 x {E = E} bs s).1.dkg_shares_received ≡ [])
    unfolding load_dkg_round1
    load_dkg_round1-IsSound bs none_yet =
        let e : load_dkg_round1 x {E = E} bs s
            ≡ (ok tt, record s { dkg_broadcasts = record_broadcasts x te bs s.dkg_broadcasts }) =
          ground (arith, v.threshold) in
        rw e (
          record {
            threshold = v.threshold;
            own = v.own;
            broadcasts = record_broadcasts-Sound bs s.dkg_broadcasts v.broadcasts;
            shares = λ k share h. absurd (cc (h, none_yet));
          },
          none_yet,
        )

    pub load_own_dkg_share-IsSound : IsSound (load_own_dkg_share x {E = E} s).1
    unfolding load_own_dkg_share
    load_own_dkg_share-IsSound = elim (Option-cases s.dkg_participant) [
      | inl absent ↦
          let e : load_own_dkg_share x {E = E} s ≡ (panic "DKG not started for this tracer", s) =
            ground (arith, dkg_index_known, absent) in
          rw e v
      | inr (participant, started) ↦
          let e : load_own_dkg_share x {E = E} s ≡ (
            ok tt,
            record s {
              dkg_shares_received =
                  record_share x me s.dkg_broadcasts me (x.share_for participant me)
                    s.dkg_shares_received;
            },
          ) =
            ground (arith, dkg_index_known, started) in
          rw e (record {
            threshold = v.threshold;
            own = v.own;
            broadcasts = v.broadcasts;
            shares =
                record_share-Sound s.dkg_broadcasts me (x.share_for participant me)
                  s.dkg_shares_received v.shares;
          })
    ]

    pub load_dkg_inbox-IsSound :
        (codec : Codec (DkgSharePayload x)) (items : List (ℕ × SecurePackage x.suite)) (now : ℕ)
        → IsSound (load_dkg_inbox x {E = E} codec items now s).1
    unfolding load_dkg_inbox
    load_dkg_inbox-IsSound codec items now =
        let e : load_dkg_inbox x {E = E} codec items now s ≡ (
          ok tt,
          record s {
            dkg_shares_received = record_inbox x codec s now me items s.dkg_shares_received;
          },
        ) =
          ground (arith, dkg_index_known) in
        rw e (record {
          threshold = v.threshold;
          own = v.own;
          broadcasts = v.broadcasts;
          shares = record_inbox-Sound codec s now items s.dkg_shares_received v.shares;
        })

  -- No share is on file yet, and what is on file is sound.
  abbrev pub Fresh : Tracer x → Type 0
  Fresh s = IsSound s × (s.dkg_shares_received ≡ [])

  pub start_dkg-Fresh :
      (E : Type 0) (codec : Codec (DkgRound1Payload x)) (seed : x.Seed) (nonce : Bytes) (now : ℕ)
      (s : Tracer x)
      → Fresh s
      → Fresh (start_dkg x {E = E} codec seed nonce now s).1
  unfolding start_dkg
  start_dkg-Fresh E codec seed nonce now s (v, none_yet) = elim (Option-cases s.n3) [
    | inl absent ↦
        let e : (start_dkg x {E = E} codec seed nonce now s).1 ≡ s =
          ground (arith, v.threshold, absent) in
        rw e (v, none_yet)
    | inr (n3, known) ↦ elim (Option-cases (x.participant_new me te n3 seed)) [
      | inl refused ↦
          let e : (start_dkg x {E = E} codec seed nonce now s).1 ≡ s =
            ground (arith, v.threshold, known, dkg_index_known s v E, refused) in
          rw e (v, none_yet)
      | inr (participant, made) ↦
          let (i, ei, em) = v.own in
          let e : (start_dkg x {E = E} codec seed nonce now s).1
              ≡ (load_dkg_round1 x {E = E} ((i, x.participant_broadcast participant) ∷ [])
                  (record s { dkg_participant = some participant })).1 =
            ground (arith, v.threshold, known, dkg_index_known s v E, made, ei) in
          rw e (
            load_dkg_round1-IsSound (record s { dkg_participant = some participant })
              (started s participant v) E ((i, x.participant_broadcast participant) ∷ []) none_yet)
    ]
  ]
    where
      started :
          (s' : Tracer x) (participant : x.DkgParticipant)
          → IsSound s'
          → IsSound (record s' { dkg_participant = some participant })
      started s' participant v' = record {
        threshold = v'.threshold;
        own = v'.own;
        broadcasts = v'.broadcasts;
        shares = v'.shares;
      }

  -- From a tracer with threshold `te` that is party `me` and has nothing on file, whatever the two
  -- rounds deliver and however they end: every dealer whose share is kept, the set that
  -- `finalize_dkg` takes as qualified, has its own broadcast on file, the broadcast's proof
  -- verifies, and the share verifies against it for `me`.
  pub dkg_rounds-IsSound :
      (round1_codec : Codec (DkgRound1Payload x)) (share_codec : Codec (DkgSharePayload x))
      (seed : x.Seed) (nonce : Bytes) (now : ℕ) (round1 : List (ℕ × Message x.suite)) (now1 : ℕ)
      (round2 : List (ℕ × Message x.suite)) (now2 i : ℕ) (s : Tracer x)
      → s.te ≡ some te
      → s.index ≡ some i
      → i + 1 ≡ me
      → s.dkg_broadcasts ≡ []
      → s.dkg_shares_received ≡ []
      → IsSound (dkg_rounds x round1_codec share_codec seed nonce now round1 now1 round2 now2 s).1
  unfolding dkg_rounds load_dkg_round1_from_peers
  dkg_rounds-IsSound round1_codec share_codec seed nonce now round1 now1 round2 now2 i s et ei em eb
        es =
      Keeps-bind Fresh IsSound (start_dkg x round1_codec seed nonce now) (λ _. after1) s
        (λ _ v. v.0)
        (start_dkg-Fresh TracerError round1_codec seed nonce now s (
          record {
            threshold = et;
            own = (i, ei, em);
            broadcasts = λ k b h. absurd (cc (h, eb));
            shares = λ k share h. absurd (cc (h, es));
          },
          es,
        ))
        λ _ s1 h1.
          Keeps-bind Fresh IsSound (load_dkg_round1_from_peers x round1_codec kept1 now1)
            (λ _. after2) s1 (λ _ v. v.0)
            (load_dkg_round1-IsSound s1 h1.0 TracerError
              (open_broadcasts x round1_codec s1 now1 kept1) h1.1)
            λ _ s2 h2.
              Keeps-bind IsSound IsSound (load_own_dkg_share x)
                (λ _. load_dkg_inbox x share_codec kept2 now2) s2 (λ _ v. v)
                (load_own_dkg_share-IsSound s2 h2.0 TracerError)
                λ _ s3 h3. load_dkg_inbox-IsSound s3 h3 TracerError share_codec kept2 now2
    where
      kept1 : List (ℕ × BroadcastPackage x.suite)
      kept1 = keep_broadcasts x round1

      kept2 : List (ℕ × SecurePackage x.suite)
      kept2 = keep_secure x round2

      after2 : Action (Tracer x) TracerError (Unit {0})
      after2 = load_own_dkg_share x >> load_dkg_inbox x share_codec kept2 now2

      after1 : Action (Tracer x) TracerError (Unit {0})
      after1 = load_dkg_round1_from_peers x round1_codec kept1 now1 >> after2

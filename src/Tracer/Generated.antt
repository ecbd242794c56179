-- ===== src/Tracer/Generated.antt =====
-- A run of src/bin/tracer.rs, phase 3: the key share.
use simulation_taps_tt.Base.{◌+◌, ◌≡◌, some, []}
use simulation_taps_tt.Base.Map.{Map}
use simulation_taps_tt.Base.Action.{Action, reads, lift, ◌>>=◌, ◌>>◌}
use simulation_taps_tt.Base.Action.Ensures.{Ensures, Ensures-bind, Ensures-reads}
use simulation_taps_tt.Crypto.{BroadcastPackage}
use simulation_taps_tt.Authority
use simulation_taps_tt.Network.{Message, broadcast}
use simulation_taps_tt.Mesh.{exchange, broadcast_all, TracerMesh, peer_ids}
use simulation_taps_tt.Mesh.NoPanic.{exchange-NeverPanics, broadcast_all-NeverPanics}
use simulation_taps_tt.Dkg.{Dkg}
use simulation_taps_tt.Tracer.State.{Tracer}
use simulation_taps_tt.Tracer.KeyGeneration.{
  start_dkg, load_dkg_round1_from_peers, load_own_dkg_share, load_dkg_inbox, finalize_dkg,
}
use simulation_taps_tt.Tracer.Node.{outgoing_shares, keep_broadcasts, keep_secure}
use simulation_taps_tt.Tracer.Program.{
  MainError, protocol, mesh, wrapped, tracing, attempt, Codecs, Draws, Surroundings, generate_key,
}
use simulation_taps_tt.Tracer.Robust.{wrapped-NeverPanics, outgoing_shares-NeverPanics}
use simulation_taps_tt.Tracer.Session.{Has, IsWorking}
use simulation_taps_tt.Tracer.Keyed.{
  fresh, IsUnderway, IsKeyed, IsAtRound1, start_dkg-Ensures, load_dkg_round1-Ensures,
  load_own_dkg_share-Ensures, load_dkg_inbox-Ensures, finalize_dkg-Ensures,
}

module _ (x : Dkg) (config : Authority.TracerPackage x.taps) (codecs : Codecs x)
    (draws : Draws x) where
  -- The key generation of a tracer that is configured and has nothing on file.
  module _ (around : Surroundings x) (links : TracerMesh)
      (w : IsWorking x codecs draws around) where
    -- The steps of `generate_key` from round 1 on, each with what follows it.
    abbrev Phase : Type 0
    Phase = Action (Tracer x) MainError (Unit {0})

    abbrev Keyed : Tracer x → Phase → Type 0
    Keyed s phase = Ensures (λ _ s'. IsKeyed x config s') phase s

    abbrev inbox : Map (Message x.suite) → Phase
    inbox received =
        load_dkg_inbox x codecs.share (keep_secure x received) draws.share_received
        >> attempt tracing (finalize_dkg x)

    abbrev shares : Map (Message x.suite) → Phase
    shares outgoing =
        lift (wrapped mesh (exchange x.suite around.round2 links outgoing)) >>= λ received.
        load_own_dkg_share x >> inbox received

    abbrev sealing : Phase
    sealing =
        reads (λ s.
          wrapped protocol
            (outgoing_shares x codecs.share s draws.share_nonce draws.share_time (peer_ids links)))
        >>= shares

    abbrev broadcasts : Map (Message x.suite) → Phase
    broadcasts received =
        load_dkg_round1_from_peers x codecs.round1 (keep_broadcasts x received)
          draws.round1_received
        >> sealing

    abbrev round1 : BroadcastPackage x.suite → Phase
    round1 p =
        lift (wrapped mesh (broadcast_all x.suite around.round1 links (broadcast p))) >>= broadcasts

    inbox-Keyed :
        (received : Map (Message x.suite)) (s : Tracer x)
        → IsUnderway x config s
        → Keyed s (inbox received)
    inbox-Keyed received s h =
        Ensures-bind (λ _ s'. IsUnderway x config s') (λ _ s'. IsKeyed x config s')
          (load_dkg_inbox x codecs.share (keep_secure x received) draws.share_received)
          (λ _. attempt tracing (finalize_dkg x)) s
          (load_dkg_inbox-Ensures x config codecs draws (keep_secure x received) s h)
          λ _ s' h'. finalize_dkg-Ensures x config codecs draws s' w.quiet h'

    shares-Keyed :
        (outgoing : Map (Message x.suite)) (s : Tracer x)
        → IsUnderway x config s
        → Keyed s (shares outgoing)
    shares-Keyed outgoing s h =
        Ensures-reads (λ _. Unit {0}) (λ _ s'. IsKeyed x config s')
          (λ _. wrapped mesh (exchange x.suite around.round2 links outgoing))
          (λ received. load_own_dkg_share x >> inbox received) s
          (wrapped-NeverPanics mesh _
            (exchange-NeverPanics x.suite around.round2 w.answers2 links outgoing))
          λ received _.
            Ensures-bind (λ _ s'. IsUnderway x config s') (λ _ s'. IsKeyed x config s')
              (load_own_dkg_share x) (λ _. inbox received) s
              (load_own_dkg_share-Ensures x config codecs draws s h)
              λ _ s' h'. inbox-Keyed received s' h'

    broadcasts-Keyed :
        (received : Map (Message x.suite)) (s : Tracer x)
        → IsAtRound1 x config s
        → Keyed s (broadcasts received)
    broadcasts-Keyed received s h =
        Ensures-bind (λ _ s'. IsUnderway x config s') (λ _ s'. IsKeyed x config s')
          (load_dkg_round1_from_peers x codecs.round1 (keep_broadcasts x received)
            draws.round1_received)
          (λ _. sealing) s
          (load_dkg_round1-Ensures x config codecs draws (keep_broadcasts x received) s h)
          λ _ s' h'.
            Ensures-reads (λ _. Unit {0}) (λ _ s''. IsKeyed x config s'')
              (λ q. wrapped protocol (
                outgoing_shares x codecs.share q draws.share_nonce draws.share_time
                  (peer_ids links)))
              shares s'
              (wrapped-NeverPanics protocol _ (
                outgoing_shares-NeverPanics x w.lawful codecs.share s' draws.share_nonce
                  draws.share_time (peer_ids links) w.share_short w.share_nonces))
              λ outgoing _. shares-Keyed outgoing s' h'

    pub generate_key-Ensures :
        (s : Tracer x) (p : x.DkgParticipant)
        → x.participant_new (config.index + 1) config.te config.n3 draws.seed ≡ some p
        → Has x config s
        → s.dkg_broadcasts ≡ []
        → s.dkg_shares_received ≡ []
        → Ensures (λ _ s'. IsKeyed x config s') (generate_key x codecs draws around links) s
    unfolding generate_key
    generate_key-Ensures s p made has no_broadcast no_share =
        Ensures-bind (λ _ s'. IsAtRound1 x config s') (λ _ s'. IsKeyed x config s')
          (start_dkg x codecs.round1 draws.seed draws.round1_nonce draws.round1_time) round1 s
          (start_dkg-Ensures x config codecs draws s p w.round1_total made has
            (fresh x config s has no_broadcast no_share))
          λ sent s' h.
            Ensures-reads (λ _. Unit {0}) (λ _ s''. IsKeyed x config s'')
              (λ _. wrapped mesh (broadcast_all x.suite around.round1 links (broadcast sent)))
              broadcasts s'
              (wrapped-NeverPanics mesh _
                (broadcast_all-NeverPanics x.suite around.round1 w.answers1 links (broadcast sent)))
              λ received _. broadcasts-Keyed received s' h

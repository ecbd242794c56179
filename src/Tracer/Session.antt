-- ===== src/Tracer/Session.antt =====
-- A run of src/bin/tracer.rs, phase 1: the configuration that it goes on with.
use simulation_taps_tt.Base.{
  ℕ, ◌≡◌, refl, Option, none, some, List, length, ◌==◌, inl, inr, Bool-cases, arith,
}
use simulation_taps_tt.Base.Outcome.{ok, err}
use simulation_taps_tt.Base.Action.Ensures.{Ensures, ensured_at_end}
use simulation_taps_tt.Crypto.{SecurePackage, ActorKeys, IsLawful, invalid_message, open_secure}
use simulation_taps_tt.Crypto.NoPanic.{IsTotal, IsShort, NeverPanics-cases, open_secure-NeverPanics}
use simulation_taps_tt.Network.{AuthorityAnchor, Message, hello, secure, broadcast}
use simulation_taps_tt.Authority
use simulation_taps_tt.Mesh.NoPanic.{Answers}
use simulation_taps_tt.Dkg.{Dkg}
use simulation_taps_tt.Tracer.State.{Tracer, load_from_authority}
use simulation_taps_tt.Tracer.Program.{protocol, Codecs, Draws, Surroundings, bootstrap}
use simulation_taps_tt.Tracer.Robust.{IsQuiet}

-- What the Authority sets in a tracer.
pub record Settings (x : Dkg) : Type 0 where
  pub index : Option ℕ
  pub n3 : Option ℕ
  pub te : Option ℕ
  pub n : Option ℕ
  pub t : Option ℕ
  pub pk_i : Option (List x.PublicKey)
  pub pk_cs : Option x.PublicKey
  pub combiner_keys : Option (ActorKeys x.suite)
  pub peer_tracers : Option (List (ActorKeys x.suite))

module _ (x : Dkg) where
  abbrev pub settings : Tracer x → Settings x
  settings s = record {
    index = s.index;
    n3 = s.n3;
    te = s.te;
    n = s.n;
    t = s.t;
    pk_i = s.pk_i;
    pk_cs = s.pk_cs;
    combiner_keys = s.combiner_keys;
    peer_tracers = s.peer_tracers;
  }

  abbrev pub settings_of : Authority.TracerPackage x.taps → Settings x
  settings_of config = record {
    index = some config.index;
    n3 = some config.n3;
    te = some config.te;
    n = some (length config.pk_i);
    t = some config.t;
    pk_i = some config.pk_i;
    pk_cs = some config.pk_cs;
    combiner_keys = some config.combiner_keys;
    peer_tracers = some config.peer_tracers;
  }

  -- The tracer has this configuration.
  abbrev pub Has : Authority.TracerPackage x.taps → Tracer x → Type 0
  Has config s = settings s ≡ settings_of config

  module _ (codecs : Codecs x) (draws : Draws x) (credentials : Option (Message x.suite))
      (anchor : AuthorityAnchor x.suite) where
    abbrev pinned : ActorKeys x.suite
    pinned = record { identity_pk = anchor.identity_pk; transport_pk = anchor.transport_pk }

    -- The configuration in the package that came first, which opens under the keys of the anchor.
    abbrev pub Configures : Tracer x → Authority.TracerPackage x.taps → Type 0
    Configures s config =
        (p : SecurePackage x.suite) × (credentials ≡ some (secure p))
        × (open_secure x.suite codecs.config s.transport_kp pinned p draws.config_time ≡ ok config)

    -- What holds behind the bootstrap of `s0`: what is on file for the key generation is as it was.
    abbrev pub Booted : Tracer x → Tracer x → Type 0
    Booted s0 s =
        (config : Authority.TracerPackage x.taps) × Configures s0 config
        × Has config s
        × (s.dkg_broadcasts ≡ s0.dkg_broadcasts)
        × (s.dkg_shares_received ≡ s0.dkg_shares_received)

    pub bootstrap-Ensures :
        (s : Tracer x)
        → Ensures (λ _ s'. Booted s s') (bootstrap x codecs draws credentials anchor) s
    unfolding bootstrap load_from_authority
    bootstrap-Ensures s = go credentials refl
      where
        go :
            (m : Option (Message x.suite))
            → credentials ≡ m
            → Ensures (λ _ s'. Booted s s') (bootstrap x codecs draws m anchor) s
        go none e = tt
        go (some (hello _ _ _ _)) e = tt
        go (some (broadcast _)) e = tt
        go (some (secure p)) e =
            let phase = bootstrap x codecs draws (some (secure p)) anchor in
            let opening =
              open_secure x.suite codecs.config s.transport_kp pinned p draws.config_time in
            elim (NeverPanics-cases opening (
              open_secure-NeverPanics x.suite codecs.config s.transport_kp pinned p
                draws.config_time)) [
                  | inr (failed, e1) ↦
                      let ends : phase s ≡ (err (protocol failed), s) = ground (arith, e1) in
                      ensured_at_end (λ _ s'. Booted s s') phase s ends tt
                  | inl (config, e1) ↦ elim (Bool-cases (length config.peer_tracers == config.n3)) [
                    | inr short ↦
                        let ends : phase s ≡ (err (protocol invalid_message), s) =
                          ground (arith, e1, short) in
                        ensured_at_end (λ _ s'. Booted s s') phase s ends tt
                    | inl full ↦
                        let ends : phase s ≡ (
                          ok tt,
                          record s {
                            index = some config.index;
                            n3 = some config.n3;
                            te = some config.te;
                            n = some (length config.pk_i);
                            pk_i = some config.pk_i;
                            pk_cs = some config.pk_cs;
                            t = some config.t;
                            combiner_keys = some config.combiner_keys;
                            peer_tracers = some config.peer_tracers;
                          },
                        ) =
                          ground (arith, e1, full) in
                        ensured_at_end (λ _ s'. Booted s s') phase s ends
                          (config, (p, e, e1), refl, refl, refl)
                  ]
                ]

-- What a run relies on: the primitives, the crate and the links of the mesh do not panic, what is
-- sealed is serialised and is short enough for the cipher, and its nonces have twelve bytes.
pub record IsWorking (x : Dkg) (codecs : Codecs x) (draws : Draws x) (around : Surroundings x)
    : Type 0 where
  pub lawful : IsLawful x.suite
  pub quiet : IsQuiet x
  pub round1_total : IsTotal codecs.round1
  pub report_total : IsTotal codecs.report
  pub share_short : IsShort x.suite codecs.share
  pub report_short : IsShort x.suite codecs.report
  pub partial_short : IsShort x.suite codecs.partial
  pub share_nonces : (k : ℕ) → length (draws.share_nonce k) ≡ 12
  pub report_nonces : length draws.report_nonce ≡ 12
  pub partial_nonces : (k : ℕ) → length (draws.partial_nonce k) ≡ 12
  pub answers1 : Answers x.suite around.round1
  pub answers2 : Answers x.suite around.round2
  pub answers3 : Answers x.suite around.round3

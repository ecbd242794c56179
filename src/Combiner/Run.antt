-- ===== src/Combiner/Run.antt =====
-- A whole run of src/bin/combiner.rs.
use simulation_taps_tt.Base.{
  ℕ, ◌≡◌, refl, sym, subst, ◌⊎◌, inl, inr, Option, none, some, List, Bytes, length, ◌==◌,
  Bool-cases, arith,
}
use simulation_taps_tt.Base.Outcome.{Outcome, ok, err, expect}
use simulation_taps_tt.Base.Action.{Action, reads, lift, ◌>>=◌, ◌>>◌}
use simulation_taps_tt.Base.Action.Keeps.{Keeps-lift, Leads, Leads-bind}
use simulation_taps_tt.Crypto.{SecurePackage, ActorKeys, invalid_message, open_secure}
use simulation_taps_tt.Crypto.NoPanic.{NeverPanics-cases, open_secure-NeverPanics}
use simulation_taps_tt.Network.{AuthorityAnchor, Message, hello, secure, broadcast, bind_with_retry}
use simulation_taps_tt.Authority.{CombinerPackage}
use simulation_taps_tt.Taps.{Taps}
use simulation_taps_tt.Combiner.State.{Combiner}
use simulation_taps_tt.Combiner.Intake.{load_from_authority}
use simulation_taps_tt.Combiner.Node.{
  NodeError, protocol, Streams, no_streams, accept_all, Randomness,
}
use simulation_taps_tt.Combiner.Program.{Codecs, Times, Surroundings, listening, bootstrap, run}
use simulation_taps_tt.Combiner.Provenance.{Filed, filed}
use simulation_taps_tt.Combiner.Accounts.{IsAccounted, signing, signing-Kept}

module _ (x : Taps) (codecs : Codecs x) (times : Times x) (around : Surroundings x)
    (anchor : AuthorityAnchor x.suite) where
  abbrev pinned : ActorKeys x.suite
  pinned = record { identity_pk = anchor.identity_pk; transport_pk = anchor.transport_pk }

  -- The configuration in the package that came first, which opens under the keys of the anchor.
  abbrev pub Configures : Combiner x → CombinerPackage x → Type 0
  Configures s config =
      (p : SecurePackage x.suite) × (around.credentials ≡ some (secure p))
      × (open_secure x.suite codecs.config s.transport_kp pinned p times.config ≡ ok config)

  -- What is on file when the rosters are those of the configuration.
  abbrev pub with_rosters : CombinerPackage x → Filed x → Filed x
  with_rosters config f = record f {
    signer_keys = some config.signer_keys;
    tracer_keys = some config.tracer_keys;
  }

  -- Nothing on file has changed; or the Combiner opened a configuration under the keys of the
  -- anchor, the streams are those of the connections that it accepted, and all that is new on file
  -- is accounted for, by the rosters of that configuration.
  abbrev pub Accounts : Filed x → Combiner x → Filed x → Type 0
  Accounts before s0 after =
      (after ≡ before)
      ⊎ ((config : CombinerPackage x) × Configures s0 config
          × ((after ≡ with_rosters config before)
              ⊎ ((st : Streams) × (accept_all config.n config.n3 around.conns
                      (no_streams config.n config.n3)
                    ≡ ok st)
                  × IsAccounted x codecs times around st (with_rosters config before) after)))

  -- Behind the bootstrap.
  abbrev Booted : Combiner x → Combiner x → Type 0
  Booted s0 s =
      (config : CombinerPackage x) × Configures s0 config
      × (filed x s ≡ with_rosters config (filed x s0))
      × (s.n ≡ some config.n)
      × (s.n3 ≡ some config.n3)

  abbrev Boots : Combiner x → (Outcome NodeError (Unit {0}) × Combiner x) → Type 0
  Boots s0 q = Leads (λ _ s. Booted s0 s) (λ s. Accounts (filed x s0) s0 (filed x s)) q.0 q.1

  bootstrap-Leads :
      (s : Combiner x)
      → Boots s (bootstrap x codecs.config around.credentials anchor times.config s)
  unfolding bootstrap load_from_authority
  bootstrap-Leads s = go around.credentials refl
    where
      go :
          (m : Option (Message x.suite))
          → around.credentials ≡ m
          → Boots s (bootstrap x codecs.config m anchor times.config s)
      go none e = inl refl
      go (some (hello _ _ _ _)) e = inl refl
      go (some (broadcast _)) e = inl refl
      go (some (secure p)) e =
          let phase = bootstrap x codecs.config (some (secure p)) anchor times.config in
          let opening = open_secure x.suite codecs.config s.transport_kp pinned p times.config in
          elim (NeverPanics-cases opening
            (open_secure-NeverPanics x.suite codecs.config s.transport_kp pinned p times.config)) [
              | inr (failed, e1) ↦
                  let ends : phase s ≡ (err (protocol failed), s) = ground (arith, e1) in
                  subst (Boots s) (sym ends) (inl refl)
              | inl (config, e1) ↦ elim (Bool-cases (length config.signer_keys == config.n)) [
                | inr short ↦
                    let ends : phase s ≡ (err (protocol invalid_message), s) =
                      ground (arith, e1, short) in
                    subst (Boots s) (sym ends) (inl refl)
                | inl full ↦ elim (Bool-cases (length config.tracer_keys == config.n3)) [
                  | inr short ↦
                      let ends : phase s ≡ (err (protocol invalid_message), s) =
                        ground (arith, e1, full, short) in
                      subst (Boots s) (sym ends) (inl refl)
                  | inl all ↦
                      let ends : phase s ≡ (
                        ok tt,
                        record s {
                          signer_keys = some config.signer_keys;
                          tracer_keys = some config.tracer_keys;
                          pk_i = some config.pk_i;
                          quorum = some config.quo;
                          n = some config.n;
                          t = some config.t;
                          n3 = some config.n3;
                          te = some config.te;
                          taps_kp = some config.kp_cs;
                        },
                      ) =
                        ground (arith, e1, full, all) in
                      subst (Boots s) (sym ends) (config, (p, e, e1), refl, refl, refl)
                ]
              ]
            ]

  module _ (random : Randomness x) (text : Bytes) where
    abbrev Main : Type 0
    Main = Action (Combiner x) NodeError (List (ℕ × Message x.suite) × List (ℕ × Message x.suite))

    abbrev unwrapped : {A : Type 0} → Option A → Outcome NodeError A
    unwrapped = expect "called `Option::unwrap()` on a `None` value"

    -- The steps of `run` behind the bootstrap, from the last one up, each with what follows it.
    abbrev accepting : ℕ → ℕ → Main
    accepting n n3 = lift (accept_all n n3 around.conns (no_streams n n3)) >>= λ st.
        signing x codecs times around st random text n

    abbrev serving : ℕ → ℕ → Main
    serving n n3 = lift (listening (bind_with_retry around.bind).0) >> accepting n n3

    abbrev counting : Main
    counting =
        reads (λ s. unwrapped s.n) >>= λ n. reads (λ s. unwrapped s.n3) >>= λ n3. serving n n3

    counting-Accounts :
        (s0 s : Combiner x) → Booted s0 s → Accounts (filed x s0) s0 (filed x (counting s).1)
    counting-Accounts s0 s (config, configured, same, known_n, known_n3) =
        let n = config.n in
        let n3 = config.n3 in
        let e : counting s ≡ serving n n3 s = ground (arith, known_n, known_n3) in
        let Q = λ (s' : Combiner x). Accounts (filed x s0) s0 (filed x s') in
        let base : Q s = inr (config, configured, inl same) in
        subst
          (λ (q : Outcome NodeError (List (ℕ × Message x.suite) × List (ℕ × Message x.suite))
              × Combiner x).
            Q q.1)
          (sym e)
          (Keeps-lift Q (listening (bind_with_retry around.bind).0) (λ _. accepting n n3) s base
            λ _ _.
              Keeps-lift Q (accept_all n n3 around.conns (no_streams n n3))
                (λ st. signing x codecs times around st random text n) s base
                λ st connected. inr (
                  config,
                  configured,
                  inr (
                    st,
                    connected,
                    signing-Kept x codecs times around st (with_rosters config (filed x s0)) random
                        text n s
                        (subst
                          (IsAccounted x codecs times around st (with_rosters config (filed x s0)))
                          (sym same)
                          (record {
                            own = refl;
                            signer_keys = refl;
                            tracer_keys = refl;
                            reports = λ j. inl refl;
                            commitments = λ j. inl refl;
                            shares = λ j. inl refl;
                          })),
                  ),
                ))

    -- However a run of the Combiner ends, with whatever the network delivers: if anything on file
    -- has changed, the Combiner opened a configuration under the keys of the anchor, and every
    -- commitment, share and tracer key on file that is new is what a package has that arrived on
    -- the stream of its sender, as the accepted connections have it, that verifies, fresh, under
    -- the identity key that the configuration's roster has for the sender, and that opens.
    pub run_accounted :
        (s0 : Combiner x)
        → Accounts (filed x s0) s0 (filed x (run x codecs random times around anchor text s0).1)
    unfolding run
    run_accounted s0 =
        Leads-bind (λ _ s. Booted s0 s) (λ s. Accounts (filed x s0) s0 (filed x s))
          (bootstrap x codecs.config around.credentials anchor times.config) (λ _. counting) s0
          (bootstrap-Leads s0) λ _ s booted. counting-Accounts s0 s booted

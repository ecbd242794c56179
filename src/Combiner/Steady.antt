-- ===== src/Combiner/Steady.antt =====
-- The handlers of src/bin/combiner.rs do not panic, and leave the configuration, the group key and
-- the challenge alone.
use simulation_taps_tt.Base.{
  ℕ, suc, ◌≡◌, refl, ◌∙◌, Option, none, some, List, [], ◌∷◌, Bytes, inl, inr, arith,
}
use simulation_taps_tt.Base.Outcome.{Outcome, ok, err, panic}
use simulation_taps_tt.Base.Action.{Action}
use simulation_taps_tt.Base.Action.Ensures.{Ends, Ensures, Ensures-bind}
use simulation_taps_tt.Crypto.{Codec, open_secure}
use simulation_taps_tt.Crypto.NoPanic.{NeverPanics-cases, open_secure-NeverPanics}
use simulation_taps_tt.Network.{Message, hello, secure, broadcast}
use simulation_taps_tt.Taps.{Taps}
use simulation_taps_tt.Payloads.{CommitmentPackage, SigmaPackage, TracerPublicKeyPackage}
use simulation_taps_tt.Combiner.State.{Combiner}
use simulation_taps_tt.Combiner.Intake.{
  handle_commitment, handle_sigma, keys_in_roster, keys_of_signer, keys_of_tracer,
  open_tracer_package, load_commitment, load_sigma, load_tracer_public_key,
}
use simulation_taps_tt.Combiner.Node.{
  NodeError, for_streams, take_commitment, take_sigma, take_public_key,
}

-- The configuration, the group key, and what the challenge is about.
pub record Parameters (x : Taps) : Type 0 where
  pub quorum : Option x.Quorum
  pub n : Option ℕ
  pub t : Option ℕ
  pub pk_i : Option (List x.PublicKey)
  pub taps_kp : Option x.KeyPair
  pub pk_e : Option x.PublicKey
  pub pk : Option x.PK
  pub r_point : Option x.PublicKey
  pub w_psi : Option x.Secret
  pub t_cipher : Option x.Cipher
  pub c : Option x.Scalar
  pub message : Option Bytes

abbrev pub parameters : {x : Taps} → Combiner x → Parameters x
parameters s = record {
  quorum = s.quorum;
  n = s.n;
  t = s.t;
  pk_i = s.pk_i;
  taps_kp = s.taps_kp;
  pk_e = s.pk_e;
  pk = s.pk;
  r_point = s.r_point;
  w_psi = s.w_psi;
  t_cipher = s.t_cipher;
  c = s.c;
  message = s.message;
}

module _ (x : Taps) where
  -- The call does not panic, and if it returns, the parameters are as they were.
  abbrev pub Steady : {E A : Type 0} → Action (Combiner x) E A → Combiner x → Type 0
  Steady m s = Ensures (λ _ s'. parameters s' ≡ parameters s) m s

  -- A loop over steady bodies is steady.
  pub for_streams-Steady :
      (body : ℕ → ℕ → Action (Combiner x) NodeError (Unit {0}))
      → ((id socket : ℕ) (s : Combiner x) → Steady (body id socket) s)
      → (id : ℕ) (streams : List (Option ℕ)) (s : Combiner x)
      → Steady (for_streams x body id streams) s
  unfolding for_streams
  for_streams-Steady body steady id [] s = refl
  for_streams-Steady body steady id (none ∷ later) s =
      for_streams-Steady body steady (suc id) later s
  for_streams-Steady body steady id (some socket ∷ later) s =
      Ensures-bind (λ _ s'. parameters s' ≡ parameters s) (λ _ s'. parameters s' ≡ parameters s)
        (body id socket) (λ _. for_streams x body (suc id) later) s (steady id socket s)
        λ _ s1 e1. steady_after s1 e1 (for_streams-Steady body steady (suc id) later s1)
    where
      steady_after :
          (s1 : Combiner x)
          → parameters s1 ≡ parameters s
          → Steady (for_streams x body (suc id) later) s1
          → Ensures (λ _ s'. parameters s' ≡ parameters s) (for_streams x body (suc id) later) s1
      steady_after s1 e1 h =
          kept (for_streams x body (suc id) later s1).0 (for_streams x body (suc id) later s1).1 h
        where
          kept :
              (r : Outcome NodeError (Unit {0})) (s' : Combiner x)
              → Ends (λ _ s''. parameters s'' ≡ parameters s1) r s'
              → Ends (λ _ s''. parameters s'' ≡ parameters s) r s'
          kept (ok a) s' e = e ∙ e1
          kept (err f) s' e = tt
          kept (panic p) s' e = absurd e

  pub take_commitment-Steady :
      (codec : Codec (CommitmentPackage x)) (now id : ℕ) (m : Option (Message x.suite))
      (s : Combiner x)
      → Steady (take_commitment x codec now id m) s
  unfolding take_commitment load_commitment keys_of_signer keys_in_roster handle_commitment
  take_commitment-Steady codec now id none s = tt
  take_commitment-Steady codec now id (some (hello _ _ _ _)) s = refl
  take_commitment-Steady codec now id (some (broadcast _)) s = refl
  take_commitment-Steady codec now id (some (secure p)) s =
      elim (NeverPanics-cases (keys_in_roster x s.signer_keys id) (ground arith)) [
        | inr (f, ek) ↦ ground (arith, ek)
        | inl (keys, ek) ↦
            elim (NeverPanics-cases (open_secure x.suite codec s.transport_kp keys p now)
              (open_secure-NeverPanics x.suite codec s.transport_kp keys p now)) [
                | inr (f, eo) ↦ ground (arith, ek, eo)
                | inl (payload, eo) ↦ ground (arith, ek, eo)
              ]
      ]

  pub take_sigma-Steady :
      (codec : Codec (SigmaPackage x)) (now id : ℕ) (m : Option (Message x.suite)) (s : Combiner x)
      → Steady (take_sigma x codec now id m) s
  unfolding take_sigma load_sigma keys_of_signer keys_in_roster handle_sigma
  take_sigma-Steady codec now id none s = tt
  take_sigma-Steady codec now id (some (hello _ _ _ _)) s = refl
  take_sigma-Steady codec now id (some (broadcast _)) s = refl
  take_sigma-Steady codec now id (some (secure p)) s =
      elim (NeverPanics-cases (keys_in_roster x s.signer_keys id) (ground arith)) [
        | inr (f, ek) ↦ ground (arith, ek)
        | inl (keys, ek) ↦
            elim (NeverPanics-cases (open_secure x.suite codec s.transport_kp keys p now)
              (open_secure-NeverPanics x.suite codec s.transport_kp keys p now)) [
                | inr (f, eo) ↦ ground (arith, ek, eo)
                | inl (payload, eo) ↦ ground (arith, ek, eo)
              ]
      ]

  pub take_public_key-Steady :
      (codec : Codec (TracerPublicKeyPackage x)) (now id : ℕ) (m : Option (Message x.suite))
      (s : Combiner x)
      → Steady (take_public_key x codec now id m) s
  unfolding take_public_key load_tracer_public_key open_tracer_package keys_of_tracer keys_in_roster
  take_public_key-Steady codec now id none s = tt
  take_public_key-Steady codec now id (some (hello _ _ _ _)) s = tt
  take_public_key-Steady codec now id (some (broadcast _)) s = tt
  take_public_key-Steady codec now id (some (secure p)) s =
      elim (NeverPanics-cases (keys_in_roster x s.tracer_keys id) (ground arith)) [
        | inr (f, ek) ↦ ground (arith, ek)
        | inl (keys, ek) ↦
            elim (NeverPanics-cases (open_secure x.suite codec s.transport_kp keys p now)
              (open_secure-NeverPanics x.suite codec s.transport_kp keys p now)) [
                | inr (f, eo) ↦ ground (arith, ek, eo)
                | inl (payload, eo) ↦ ground (arith, ek, eo)
              ]
      ]

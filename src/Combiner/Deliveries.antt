-- ===== src/Combiner/Deliveries.antt =====
-- The loops of src/bin/combiner.rs, when everyone is connected and everything arrives.
use simulation_taps_tt.Base.{
  ℕ, suc, ◌+◌, ◌≤◌, ◌<◌, ◌≡◌, refl, sym, subst, Bool, true, Option, none, some, List, [], ◌∷◌, map,
  length, get_elem?, arith,
}
use simulation_taps_tt.Base.Map.{Map, lookup, insert}
use simulation_taps_tt.Base.Outcome.{ok}
use simulation_taps_tt.Base.Action.{Action}
use simulation_taps_tt.Crypto.{Suite, SecurePackage, ActorKeys, open_secure}
use simulation_taps_tt.Network.{Message, secure}
use simulation_taps_tt.Taps.{Taps}
use simulation_taps_tt.Payloads.{CommitmentPackage, SigmaPackage}
use simulation_taps_tt.Combiner.State.{Combiner}
use simulation_taps_tt.Combiner.Intake.{
  handle_commitment, handle_sigma, keys_in_roster, keys_of_signer, load_commitment, load_sigma,
}
use simulation_taps_tt.Combiner.Node.{
  NodeError, for_streams, take_commitment, take_sigma, collect_commitments, collect_sigmas,
}
use simulation_taps_tt.Combiner.Program.{send_streams}
use simulation_taps_tt.Combiner.Provenance.{Round}
use simulation_taps_tt.Combiner.Gathering.{Lists}
use simulation_taps_tt.Combiner.GroupKeyPhase.{file, lookup-file}

module _ (x : Taps) {A : Type 0} (round : Round x A) where
  -- The stream of `id` is connected, and what arrives on it opens to a payload.
  abbrev Arrives : ℕ → Option ℕ → A → Type 0
  Arrives id stream payload =
      (socket : ℕ) × (p : SecurePackage x.suite) × (keys : ActorKeys x.suite) × (stream
        ≡ some socket)
      × (round.arrivals socket ≡ some (secure p))
      × (keys_in_roster x round.roster id ≡ ok keys)
      × (open_secure x.suite round.codec round.own keys p (round.now id) ≡ ok payload)

  -- On the streams, from `id` on, these payloads arrive.
  abbrev pub Delivers : ℕ → List (Option ℕ) → List A → Type 0
  Delivers id [] [] = Unit
  Delivers id [] (a ∷ payloads) = ⊥
  Delivers id (stream ∷ streams) [] = ⊥
  Delivers id (stream ∷ streams) (a ∷ payloads) =
      Arrives id stream a × Delivers (suc id) streams payloads

module _ (x : Taps) {A B : Type 0} (round : Round x A) (value : A → B) (n : ℕ)
    (body : ℕ → ℕ → Action (Combiner x) NodeError (Unit {0})) (store : Map B → Combiner x) where
  -- If the body files what arrives, the loop files it all, under the ids.
  pub for_streams_delivered :
      ((id socket : ℕ) (p : SecurePackage x.suite) (keys : ActorKeys x.suite) (a : A) (m : Map B)
        → id < n
        → round.arrivals socket ≡ some (secure p)
        → keys_in_roster x round.roster id ≡ ok keys
        → open_secure x.suite round.codec round.own keys p (round.now id) ≡ ok a
        → body id socket (store m) ≡ (ok tt, store (insert id (value a) m)))
      → (id : ℕ) (streams : List (Option ℕ)) (payloads : List A) (m : Map B)
      → id + length payloads ≤ n
      → Delivers x round id streams payloads
      → for_streams x body id streams (store m) ≡ (ok tt, store (file id (map value payloads) m))
  unfolding for_streams
  for_streams_delivered step id [] [] m room h = refl
  for_streams_delivered step id [] (a ∷ payloads) m room h = absurd h
  for_streams_delivered step id (stream ∷ streams) [] m room h = absurd h
  for_streams_delivered step id (none ∷ streams) (a ∷ payloads) m room
        ((k, p, keys, es, _, _, _), h) =
      absurd (cc (es))
  for_streams_delivered step id (some socket ∷ streams) (a ∷ payloads) m room
        ((k, p, keys, es, ea, ek, eo), h) =
      let same : k ≡ socket = cc (es) in
      let arrived = subst (λ j. round.arrivals j ≡ some (secure p)) same ea in
      ground (
        arith,
        step id socket p keys a m (omega (arith, room)) arrived ek eo,
        for_streams_delivered step (suc id) streams payloads (insert id (value a) m)
            (omega (arith, room)) h,
      )

Lists-of_lookup :
    {A : Type 0} (m : Map A) (i : ℕ) (xs : List A)
    → ((k : ℕ) → lookup (i + k) m ≡ get_elem? xs k)
    → Lists m i xs
Lists-of_lookup m i [] h = tt
Lists-of_lookup m i (a ∷ xs) h = (
  subst (λ j. lookup j m ≡ some a) (omega arith) (h 0),
  Lists-of_lookup m (suc i) xs
      (λ k. subst (λ j. lookup j m ≡ get_elem? xs k) (omega arith) (h (suc k))),
)

pub Lists-file : {A : Type 0} (xs : List A) → Lists (file 0 xs []) 0 xs
Lists-file xs = Lists-of_lookup (file 0 xs []) 0 xs (λ k. lookup-file 0 xs [] k (tt, tt, refl))

module _ (x : Taps) (s : Combiner x) (n : ℕ) (known_n : s.n ≡ some n) where
  module _ (round : Round x (CommitmentPackage x)) (er : s.signer_keys ≡ round.roster)
      (eo : s.transport_kp ≡ round.own) where
    take_commitment_arrived :
        (id socket : ℕ) (p : SecurePackage x.suite) (keys : ActorKeys x.suite)
        (a : CommitmentPackage x) (m : Map x.Commitment)
        → id < n
        → round.arrivals socket ≡ some (secure p)
        → keys_in_roster x round.roster id ≡ ok keys
        → open_secure x.suite round.codec round.own keys p (round.now id) ≡ ok a
        → take_commitment x round.codec
            (round.now id)
            id
            (round.arrivals socket)
            (record s { commitments = m })
          ≡ (ok tt, record s { commitments = insert id a.commitment m })
    unfolding take_commitment load_commitment keys_of_signer handle_commitment
    take_commitment_arrived id socket p keys a m below arrived ek opened =
        let ek' = subst (λ r. keys_in_roster x r id ≡ ok keys) (sym er) ek in
        let opened' =
          subst (λ own. open_secure x.suite round.codec own keys p (round.now id) ≡ ok a) (sym eo)
            opened in
        ground (arith, below, arrived, ek', opened', known_n)

    -- All commitments arrive: each is on file under the id of its signer.
    pub collect_commitments_all :
        (payloads : List (CommitmentPackage x))
        → s.commitments ≡ []
        → length payloads ≤ n
        → Delivers x round 0 round.streams payloads
        → collect_commitments x round.codec round.now round.arrivals round.streams s
          ≡ (ok tt, record s { commitments = file 0 (map (λ p. p.commitment) payloads) [] })
    unfolding collect_commitments
    collect_commitments_all payloads none_yet room h =
        subst
          (λ m.
            collect_commitments x round.codec round.now round.arrivals round.streams
              (record s { commitments = m })
            ≡ (ok tt, record s { commitments = file 0 (map (λ p. p.commitment) payloads) [] }))
          (sym none_yet)
          (for_streams_delivered x round (λ p. p.commitment) n
            (λ k socket. take_commitment x round.codec (round.now k) k (round.arrivals socket))
            (λ m. record s { commitments = m })
            (λ id socket p keys a m below arrived ek eo'.
              take_commitment_arrived id socket p keys a m below arrived ek eo')
            0 round.streams payloads [] (omega (arith, room)) h)

  module _ (round : Round x (SigmaPackage x)) (er : s.signer_keys ≡ round.roster)
      (eo : s.transport_kp ≡ round.own) where
    take_sigma_arrived :
        (id socket : ℕ) (p : SecurePackage x.suite) (keys : ActorKeys x.suite) (a : SigmaPackage x)
        (m : Map x.Sign)
        → id < n
        → round.arrivals socket ≡ some (secure p)
        → keys_in_roster x round.roster id ≡ ok keys
        → open_secure x.suite round.codec round.own keys p (round.now id) ≡ ok a
        → take_sigma x round.codec
            (round.now id)
            id
            (round.arrivals socket)
            (record s { sigmas = m })
          ≡ (ok tt, record s { sigmas = insert id a.z m })
    unfolding take_sigma load_sigma keys_of_signer handle_sigma
    take_sigma_arrived id socket p keys a m below arrived ek opened =
        let ek' = subst (λ r. keys_in_roster x r id ≡ ok keys) (sym er) ek in
        let opened' =
          subst (λ own. open_secure x.suite round.codec own keys p (round.now id) ≡ ok a) (sym eo)
            opened in
        ground (arith, below, arrived, ek', opened', known_n)

    -- All shares arrive: each is on file under the id of its signer.
    pub collect_sigmas_all :
        (payloads : List (SigmaPackage x))
        → s.sigmas ≡ []
        → length payloads ≤ n
        → Delivers x round 0 round.streams payloads
        → collect_sigmas x round.codec round.now round.arrivals round.streams s
          ≡ (ok tt, record s { sigmas = file 0 (map (λ p. p.z) payloads) [] })
    unfolding collect_sigmas
    collect_sigmas_all payloads none_yet room h =
        subst
          (λ m.
            collect_sigmas x round.codec round.now round.arrivals round.streams
              (record s { sigmas = m })
            ≡ (ok tt, record s { sigmas = file 0 (map (λ p. p.z) payloads) [] }))
          (sym none_yet)
          (for_streams_delivered x round (λ p. p.z) n
            (λ k socket. take_sigma x round.codec (round.now k) k (round.arrivals socket))
            (λ m. record s { sigmas = m })
            (λ id socket p keys a m below arrived ek eo'.
              take_sigma_arrived id socket p keys a m below arrived ek eo')
            0 round.streams payloads [] (omega (arith, room)) h)

-- Sending reaches everyone: the message is written on each stream that is connected.
abbrev pub to_all : {c : Suite} → Message c → List (Option ℕ) → List (ℕ × Message c)
to_all msg [] = []
to_all msg (none ∷ later) = to_all msg later
to_all msg (some socket ∷ later) = (socket, msg) ∷ to_all msg later

pub send_streams_all :
    {c : Suite} (reaches : ℕ → Bool) (msg : Message c) (streams : List (Option ℕ))
    → ((socket : ℕ) → reaches socket ≡ true)
    → send_streams reaches msg streams ≡ ok (to_all msg streams)
unfolding send_streams
send_streams_all reaches msg [] h = refl
send_streams_all reaches msg (none ∷ later) h = send_streams_all reaches msg later h
send_streams_all reaches msg (some socket ∷ later) h =
    ground (arith, h socket, send_streams_all reaches msg later h)

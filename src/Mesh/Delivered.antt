-- ===== src/Mesh/Delivered.antt =====
-- One round over the mesh: what comes back, and from whom.
use simulation_taps_tt.Base.{
  ℕ, ◌≡◌, refl, none, some, List, [], ◌∷◌, inl, inr, Every, Any, Every-map, Option-cases, arith,
}
use simulation_taps_tt.Base.Map.{Map, lookup, insert, keys, lookup-insert}
use simulation_taps_tt.Base.Outcome.{Outcome, ok, err}
use simulation_taps_tt.Crypto.{Suite}
use simulation_taps_tt.Network.{NetError, Message}
use simulation_taps_tt.Mesh.Defs.{
  no_outgoing, TracerMesh, peer_ids, jobs, join_all, exchange, same_for, broadcast_all,
}

module _ (c : Suite) (reply : ℕ → Message c → Outcome NetError (Message c)) where
  -- What the jobs give if every one succeeds, with `answer` for the answer of each peer.
  abbrev answers : (ℕ → Message c) → List ℕ → Map (Message c)
  answers answer [] = []
  answers answer (peer ∷ peers) = insert peer (answer peer) (answers answer peers)

  abbrev sent_to : (ℕ → Message c) → List ℕ → Map (Message c)
  sent_to sent [] = []
  sent_to sent (peer ∷ peers) = (peer, sent peer) ∷ sent_to sent peers

  lookup-answers :
      (answer : ℕ → Message c) (peers : Map ℕ) (k : ℕ)
      → lookup k (answers answer (keys peers))
        ≡ elim (lookup k peers) [ none ↦ none | some _ ↦ some (answer k) ]
  lookup-answers answer [] k = refl
  lookup-answers answer ((j, s) ∷ peers) k = ground (
    arith,
    lookup-insert k j (answer j) (answers answer (keys peers)),
    lookup-answers answer peers k,
  )

  jobs_all :
      (sent : ℕ → Message c) (peers : List ℕ) (outgoing : Map (Message c))
      → Every (λ k. lookup k outgoing ≡ some (sent k)) peers
      → jobs c peers outgoing ≡ ok (sent_to sent peers)
  unfolding jobs
  jobs_all sent [] outgoing h = refl
  jobs_all sent (peer ∷ peers) outgoing h = ground (arith, h.0, jobs_all sent peers outgoing h.1)

  join_all_all :
      (sent answer : ℕ → Message c) (peers : List ℕ)
      → Every (λ k. reply k (sent k) ≡ ok (answer k)) peers
      → join_all c reply (sent_to sent peers) ≡ ok (answers answer peers)
  unfolding join_all
  join_all_all sent answer [] h = refl
  join_all_all sent answer (peer ∷ peers) h =
      ground (arith, h.0, join_all_all sent answer peers h.1)

  -- If there is a message for every peer and every link answers it, the round gives the answer of
  -- each peer, under its id, and nothing else.
  pub exchange_all :
      (mesh : TracerMesh) (outgoing : Map (Message c)) (sent answer : ℕ → Message c)
      → Every (λ k. lookup k outgoing ≡ some (sent k)) (peer_ids mesh)
      → Every (λ k. reply k (sent k) ≡ ok (answer k)) (peer_ids mesh)
      → (m : Map (Message c)) × (exchange c reply mesh outgoing ≡ ok m)
        × ((k : ℕ)
            → lookup k m ≡ elim (lookup k mesh.peers) [ none ↦ none | some _ ↦ some (answer k) ])
  unfolding exchange peer_ids
  exchange_all mesh outgoing sent answer h a = (
    answers answer (keys mesh.peers),
    ground (
      arith,
      jobs_all sent (keys mesh.peers) outgoing h,
      join_all_all sent answer (keys mesh.peers) a,
    ),
    lookup-answers answer mesh.peers,
  )

  same_for-Every :
      (msg : Message c) (peers : List ℕ)
      → Every (λ k. lookup k (same_for c msg peers) ≡ some msg) peers
  unfolding same_for
  same_for-Every msg [] = tt
  same_for-Every msg (peer ∷ peers) = (
    ground (arith, lookup-insert peer peer msg (same_for c msg peers)),
    Every-map _ _ peers (λ k h. ground (arith, lookup-insert k peer msg (same_for c msg peers), h))
        (same_for-Every msg peers),
  )

  -- A broadcast has a message for every peer: if every link answers it, the round gives the answer
  -- of each peer, under its id, and nothing else.
  pub broadcast_all_lem :
      (mesh : TracerMesh) (msg : Message c) (answer : ℕ → Message c)
      → Every (λ k. reply k msg ≡ ok (answer k)) (peer_ids mesh)
      → (m : Map (Message c)) × (broadcast_all c reply mesh msg ≡ ok m)
        × ((k : ℕ)
            → lookup k m ≡ elim (lookup k mesh.peers) [ none ↦ none | some _ ↦ some (answer k) ])
  unfolding broadcast_all
  broadcast_all_lem mesh msg answer a =
      exchange_all mesh (same_for c msg (peer_ids mesh)) (λ _. msg) answer
        (same_for-Every msg (peer_ids mesh)) a

  jobs_missing :
      (peers : List ℕ) (outgoing : Map (Message c)) (k : ℕ)
      → Any (λ j. j ≡ k) peers
      → lookup k outgoing ≡ none
      → (j : ℕ) × (lookup j outgoing ≡ none) × (jobs c peers outgoing ≡ err (no_outgoing j))
  unfolding jobs
  jobs_missing [] outgoing k h absent = absurd h
  jobs_missing (peer ∷ peers) outgoing k h absent = elim (Option-cases (lookup peer outgoing)) [
    | inl e ↦ (peer, e, ground (arith, e))
    | inr (msg, e) ↦ elim h [
      | inl same ↦ absurd (cc (e, absent, same))
      | inr later ↦
          let (j, e', f) = jobs_missing peers outgoing k later absent in
          (j, e', ground (arith, e, f))
    ]
  ]

  -- If a peer has no message, the round fails with a peer that has none, whatever the links would
  -- answer.
  pub exchange_missing :
      (mesh : TracerMesh) (outgoing : Map (Message c)) (k : ℕ)
      → Any (λ j. j ≡ k) (peer_ids mesh)
      → lookup k outgoing ≡ none
      → (j : ℕ) × (lookup j outgoing ≡ none)
        × (exchange c reply mesh outgoing ≡ err (no_outgoing j))
  unfolding exchange peer_ids
  exchange_missing mesh outgoing k h absent =
      let (j, e, f) = jobs_missing (keys mesh.peers) outgoing k h absent in
      (j, e, ground (arith, f))

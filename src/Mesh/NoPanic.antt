-- ===== src/Mesh/NoPanic.antt =====
-- A round over the links panics only if a link does.
use simulation_taps_tt.Base.{ℕ, List, [], ◌∷◌, Option-cases, inl, inr, arith}
use simulation_taps_tt.Base.Map.{Map, lookup, keys}
use simulation_taps_tt.Base.Outcome.{Outcome}
use simulation_taps_tt.Crypto.{Suite}
use simulation_taps_tt.Crypto.NoPanic.{NeverPanics, NeverPanics-cases}
use simulation_taps_tt.Network.{NetError, Message}
use simulation_taps_tt.Mesh.Defs.{
  TracerMesh, jobs, join_all, exchange, same_for, peer_ids, broadcast_all,
}

module _ (c : Suite) where
  -- No link panics.
  abbrev pub Answers : (ℕ → Message c → Outcome NetError (Message c)) → Type 0
  Answers reply = (peer : ℕ) (msg : Message c) → NeverPanics (reply peer msg)

  module _ (reply : ℕ → Message c → Outcome NetError (Message c)) (answers : Answers reply) where
    join_all-NeverPanics : (m : Map (Message c)) → NeverPanics (join_all c reply m)
    unfolding join_all
    join_all-NeverPanics [] = tt
    join_all-NeverPanics ((peer, msg) ∷ later) =
        ground (arith, answers peer msg, join_all-NeverPanics later)

    jobs-NeverPanics :
        (peers : List ℕ) (outgoing : Map (Message c)) → NeverPanics (jobs c peers outgoing)
    unfolding jobs
    jobs-NeverPanics [] outgoing = tt
    jobs-NeverPanics (peer ∷ peers) outgoing = elim (Option-cases (lookup peer outgoing)) [
      | inl missing ↦ ground (arith, missing)
      | inr (msg, found) ↦ ground (arith, found, jobs-NeverPanics peers outgoing)
    ]

    pub exchange-NeverPanics :
        (mesh : TracerMesh) (outgoing : Map (Message c))
        → NeverPanics (exchange c reply mesh outgoing)
    unfolding exchange
    exchange-NeverPanics mesh outgoing =
        elim (NeverPanics-cases (jobs c (keys mesh.peers) outgoing)
          (jobs-NeverPanics (keys mesh.peers) outgoing)) [
            | inr (_, e) ↦ ground (arith, e)
            | inl (sent, e) ↦ ground (arith, e, join_all-NeverPanics sent)
          ]

    pub broadcast_all-NeverPanics :
        (mesh : TracerMesh) (msg : Message c) → NeverPanics (broadcast_all c reply mesh msg)
    unfolding broadcast_all
    broadcast_all-NeverPanics mesh msg = exchange-NeverPanics mesh (same_for c msg (peer_ids mesh))

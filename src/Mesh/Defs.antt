-- ===== src/Mesh/Defs.antt =====
-- The links that a tracer opens, and one round over them. A link is the number of its connection.
use simulation_taps_tt.Base.{
  ℕ, zero, suc, ◌+◌, ◌-◌, ◌&&◌, Bool, false, not, Option, List, [], ◌∷◌, Bytes, length, get_elem?,
  eq_bytes, ltb, ◌==◌, if◌then◌else◌,
}
use simulation_taps_tt.Base.Map.{Map, lookup, contains, insert, keys}
use simulation_taps_tt.Base.Outcome.{Outcome, ok, err, panic, expect, ok_or, guard, ◌>>=◌, ◌>>◌}
use simulation_taps_tt.Crypto.{Suite, ActorKeys}
use simulation_taps_tt.Network.{
  NetError, io, signer, combiner, tracer, Message, hello, secure, broadcast, Attempt,
  bind_with_retry,
}

-- The errors behind `Box<dyn Error>`. `still_waiting`: the call has not returned, since no further
-- connection has come in.
pub data MeshError : Type 0 where
  out_of_range : ℕ → ℕ → MeshError
  no_outgoing : ℕ → MeshError
  link : NetError → MeshError
  accept_failed still_waiting : MeshError

-- The port of `tracer_addr`: that of the base, and the index, on the loopback address.
unfoldable pub tracer_port : ℕ → ℕ → ℕ
tracer_port base_port index = base_port + index

pub record TracerMesh : Type 0 where
  pub index : ℕ
  pub peers : Map ℕ

-- `peer_ids`
unfoldable pub peer_ids : TracerMesh → List ℕ
peer_ids mesh = keys mesh.peers

-- What `accept` gives, and then `receive`.
pub data Inbound (c : Suite) : Type 0 where
  failed : Inbound c
  unreadable : ℕ → Inbound c
  received : ℕ → Message c → Inbound c

-- `for peer in 0..index`, with `left` peers to go: connecting is repeated until it succeeds, and
-- `dialled peer` is the link if the `Hello` is sent on it.
unfoldable pub dial : (ℕ → Option ℕ) → (left : ℕ) → (peer : ℕ) → Map ℕ → Outcome MeshError (Map ℕ)
dial dialled zero peer peers = ok peers
dial dialled (suc left) peer peers = ok_or (link io) (dialled peer) >>= λ socket.
    dial dialled left (suc peer) (insert peer socket peers)

-- `.await?` on the listener
abbrev pub listening : Outcome NetError ℕ → Outcome MeshError (Unit {0})
listening (ok _) = ok tt
listening (err e) = err (link e)
listening (panic p) = panic p

module _ (c : Suite) where
  -- The guard of the arm for a `Hello` of a tracer; `roster[id]` would panic out of bounds.
  unfoldable pub admits : ℕ → List (ActorKeys c) → Map ℕ → ℕ → Bytes → Outcome MeshError Bool
  admits index roster peers id identity_pk =
      if ltb index id && (ltb id (length roster) && not (contains id peers))
      then (expect "index out of bounds" (get_elem? roster id) >>= λ entry.
          ok (eq_bytes identity_pk (c.serialize entry.identity_pk)))
      else ok false

  -- One connection: what the peers are after it.
  unfoldable pub admit : ℕ → List (ActorKeys c) → Map ℕ → ℕ → Message c → Outcome MeshError (Map ℕ)
  unfolding admits
  admit index roster peers socket (hello id tracer _ identity_pk) =
      admits index roster peers id identity_pk >>= λ admitted.
      ok (if admitted then insert id socket peers else peers)
  admit index roster peers socket (hello _ signer _ _) = ok peers
  admit index roster peers socket (hello _ combiner _ _) = ok peers
  admit index roster peers socket (secure _) = ok peers
  admit index roster peers socket (broadcast _) = ok peers

  -- `while peers.len() < n3 - 1`
  unfoldable pub accept_links :
      ℕ → List (ActorKeys c) → List (Inbound c) → Map ℕ → Outcome MeshError (Map ℕ)
  unfolding admit
  accept_links index roster [] peers =
      if ltb (length peers) (length roster - 1) then err still_waiting else ok peers
  accept_links index roster (failed ∷ later) peers =
      if ltb (length peers) (length roster - 1) then err accept_failed else ok peers
  accept_links index roster (unreadable _ ∷ later) peers =
      let rest = accept_links index roster later peers in
      if ltb (length peers) (length roster - 1) then rest else ok peers
  accept_links index roster (received socket msg ∷ later) peers =
      let rest =
        admit index roster peers socket msg >>= λ peers'. accept_links index roster later peers' in
      if ltb (length peers) (length roster - 1) then rest else ok peers

  unfoldable pub establish :
      (ℕ → Attempt NetError ℕ)
      → (ℕ → Option ℕ)
      → List (Inbound c)
      → ℕ
      → List (ActorKeys c)
      → Outcome MeshError TracerMesh
  unfolding accept_links dial bind_with_retry
  establish bind dialled inbound index roster =
      let n3 = length roster in
      guard (ltb index n3) (out_of_range index n3)
      >> (if n3 == 1
          then ok (record { index = index; peers = [] })
          else (let expects = ltb 0 (n3 - 1 - index) in
              (if expects then listening (bind_with_retry bind).0 else ok tt)
              >> (dial dialled index 0 [] >>= λ peers.
                  (if expects then accept_links index roster inbound peers else ok peers)
                  >>= λ peers'. ok (record { index = index; peers = peers' }))))

  -- The jobs of `exchange`: one for each peer, if there is a message for it.
  unfoldable pub jobs : List ℕ → Map (Message c) → Outcome MeshError (Map (Message c))
  jobs [] outgoing = ok []
  jobs (peer ∷ peers) outgoing = ok_or (no_outgoing peer) (lookup peer outgoing) >>= λ msg.
      jobs peers outgoing >>= λ rest. ok ((peer, msg) ∷ rest)

  -- `try_join_all`: what comes back on each link, in return for what is sent.
  unfoldable pub join_all :
      (ℕ → Message c → Outcome NetError (Message c))
      → Map (Message c)
      → Outcome MeshError (Map (Message c))
  join_all reply [] = ok []
  join_all reply ((peer, msg) ∷ later) = elim (reply peer msg) [
    | ok answer ↦ join_all reply later >>= λ rest. ok (insert peer answer rest)
    | err e ↦ err (link e)
    | panic p ↦ panic p
  ]

  unfoldable pub exchange :
      (ℕ → Message c → Outcome NetError (Message c))
      → TracerMesh
      → Map (Message c)
      → Outcome MeshError (Map (Message c))
  unfolding jobs join_all
  exchange reply mesh outgoing = jobs (keys mesh.peers) outgoing >>= join_all reply

  -- The map that `broadcast` collects.
  unfoldable pub same_for : Message c → List ℕ → Map (Message c)
  same_for msg [] = []
  same_for msg (peer ∷ peers) = insert peer msg (same_for msg peers)

  unfoldable pub broadcast_all :
      (ℕ → Message c → Outcome NetError (Message c))
      → TracerMesh
      → Message c
      → Outcome MeshError (Map (Message c))
  unfolding exchange peer_ids same_for
  broadcast_all reply mesh msg = exchange reply mesh (same_for msg (peer_ids mesh))

-- ===== src/Tracer/Sources.antt =====
-- Where the partial decryptions come from that a tracer combines.
use simulation_taps_tt.Base.{
  ℕ, ◌+◌, ◌≡◌, ◌⊎◌, refl, subst, some, List, [], ◌∷◌, ◌++◌, inl, inr, get_elem?, ◌==◌, Every,
  Every-map, Every-snoc, Bool-cases, Option-cases, arith,
}
use simulation_taps_tt.Base.Outcome.{ok, Outcome-cases}
use simulation_taps_tt.Crypto.{Codec, SecurePackage, ActorKeys, open_secure}
use simulation_taps_tt.Dkg.{Dkg}
use simulation_taps_tt.Tracer.State.{Tracer}
use simulation_taps_tt.Tracer.Peers.{PartialDecryptionPayload, peer_keys, open_from_peer}
use simulation_taps_tt.Tracer.Tracing.{open_peer_partials}

module _ (x : Dkg) (codec : Codec (PartialDecryptionPayload x)) (s : Tracer x) (now : ℕ)
    (roster : List (ActorKeys x.suite)) where
  -- The partial decryption opens under the keys that the roster has for a tracer, and carries the
  -- index of that tracer.
  abbrev pub IsPeers : x.PartialDecryption → Type 0
  IsPeers p =
      (id : ℕ) × (keys : ActorKeys x.suite) × (pkg : SecurePackage x.suite) × (get_elem? roster id
        ≡ some keys)
      × (open_secure x.suite codec s.transport_kp keys pkg now ≡ ok (record { partial = p }))
      × (x.tracer_index p ≡ id + 1)

  -- It is that, or the tracer's own.
  abbrev pub IsSourced : x.PartialDecryption → x.PartialDecryption → Type 0
  IsSourced own p = (p ≡ own) ⊎ IsPeers p

  open_peer_partials-IsPeers :
      (items : List (ℕ × SecurePackage x.suite))
      → s.peer_tracers ≡ some roster
      → Every IsPeers (open_peer_partials x codec s now items)
  unfolding open_peer_partials open_from_peer peer_keys
  open_peer_partials-IsPeers [] known = tt
  open_peer_partials-IsPeers ((id, pkg) ∷ later) known =
      let rest = open_peer_partials x codec s now later in
      let all = open_peer_partials x codec s now ((id, pkg) ∷ later) in
      let h = open_peer_partials-IsPeers later known in
      elim (Option-cases (get_elem? roster id)) [
        | inl unknown ↦
            let e : rest ≡ all = ground (arith, known, unknown) in subst (Every IsPeers) e h
        | inr (keys, listed) ↦
            elim (Outcome-cases (open_secure x.suite codec s.transport_kp keys pkg now)) [
              | inl (p, opened) ↦ elim (Bool-cases (x.tracer_index p.partial == id + 1)) [
                | inl same ↦
                    let e : p.partial ∷ rest ≡ all = ground (arith, known, listed, opened, same) in
                    subst (Every IsPeers) e
                      ((id, keys, pkg, listed, opened, ground (arith, same)), h)
                | inr other ↦
                    let e : rest ≡ all = ground (arith, known, listed, opened, other) in
                    subst (Every IsPeers) e h
              ]
              | inr (inl (f, failed)) ↦
                  let e : rest ≡ all = ground (arith, known, listed, failed) in
                  subst (Every IsPeers) e h
              | inr (inr (f, failed)) ↦
                  let e : rest ≡ all = ground (arith, known, listed, failed) in
                  subst (Every IsPeers) e h
            ]
      ]

  pub collected-IsSourced :
      (items : List (ℕ × SecurePackage x.suite)) (own : x.PartialDecryption)
      → s.peer_tracers ≡ some roster
      → Every (IsSourced own) (open_peer_partials x codec s now items ++ (own ∷ []))
  collected-IsSourced items own known =
      let peers = open_peer_partials x codec s now items in
      Every-snoc (IsSourced own) peers own
        (Every-map IsPeers (IsSourced own) peers (λ p h. inr h)
          (open_peer_partials-IsPeers items known))
        (inl refl)

-- ===== src/Mesh/Links.antt =====
-- A mesh that is established has one link to every other tracer.
use native.Mathlib.Decide.{dec_lt}
use simulation_taps_tt.Base.{
  ℕ, zero, suc, ◌+◌, ◌-◌, ◌<◌, ◌≤◌, ◌≡◌, ◌≢◌, refl, Option, none, some, List, [], ◌∷◌, ◌⊎◌, inl,
  inr, Bytes, Bool-cases, Option-cases, length, get_elem?, get_elem?_in_bounds, eq_bytes,
  eq_bytes→eq, ltb, ltb→lt, ◌==◌, if◌then◌else◌, subst, arith,
}
use simulation_taps_tt.Base.Map.{Map, lookup, insert, Ascends, insert-Ascends, lookup-insert}
use simulation_taps_tt.Base.Map.Order.{
  Below, insert-Below, Below-weaken, lookup_above, length-insert_new, lookup_of_full_but,
  length-lt_of_absent,
}
use simulation_taps_tt.Base.Outcome.{Outcome, ok, err, ◌>>=◌, Safe, Safe-bind, Safe-ok_or}
use simulation_taps_tt.Crypto.{Suite, ActorKeys}
use simulation_taps_tt.Network.{
  NetError, io, Message, hello, tracer, signer, combiner, secure, broadcast, Attempt,
}
use simulation_taps_tt.Network.Retry.{bind_with_retry_returns}
use simulation_taps_tt.Mesh.Defs.{
  MeshError, out_of_range, TracerMesh, Inbound, failed, unreadable, received, admits, admit,
  accept_links, dial, establish, link, still_waiting, accept_failed,
}

module _ (c : Suite) (index : ℕ) (roster : List (ActorKeys c)) where
  -- What a connection with a `Hello` of id `id` and identity key `identity_pk` needs to become a
  -- link.
  pub record IsAdmitted (peers : Map ℕ) (id : ℕ) (identity_pk : Bytes) : Type 0 where
    pub above : index < id
    pub below : id < length roster
    pub not_connected : lookup id peers ≡ none
    pub entry : ActorKeys c
    pub known_entry : get_elem? roster id ≡ some entry
    pub same_key : identity_pk ≡ c.serialize entry.identity_pk

  -- One connection never panics. It leaves the links as they are, or it is a tracer's `Hello` that
  -- is admitted, and adds the link under the id that it names.
  pub admit_cases :
      (peers : Map ℕ) (socket : ℕ) (msg : Message c)
      → (admit c index roster peers socket msg ≡ ok peers)
        ⊎ ((id : ℕ) × (pk : Bytes) × (identity_pk : Bytes) × (msg ≡ hello id tracer pk identity_pk)
            × IsAdmitted peers id identity_pk
            × (admit c index roster peers socket msg ≡ ok (insert id socket peers)))
  unfolding admit admits
  admit_cases peers socket (hello id signer pk identity_pk) = inl refl
  admit_cases peers socket (hello id combiner pk identity_pk) = inl refl
  admit_cases peers socket (secure p) = inl refl
  admit_cases peers socket (broadcast p) = inl refl
  admit_cases peers socket (hello id tracer pk identity_pk) = elim (dec_lt index id) [
    | no low ↦ inl (ground (arith, low))
    | yes above ↦ elim (dec_lt id (length roster)) [
      | no high ↦ inl (ground (arith, above, high))
      | yes below ↦ elim (Option-cases (lookup id peers)) [
        | inr (old, taken) ↦ inl (ground (arith, above, below, taken))
        | inl free ↦
            let (entry, known) = get_elem?_in_bounds roster id below in
            elim (Bool-cases (eq_bytes identity_pk (c.serialize entry.identity_pk))) [
              | inr other ↦ inl (ground (arith, above, below, free, known, other))
              | inl same ↦ inr (
                id,
                pk,
                identity_pk,
                refl,
                record {
                  above = above;
                  below = below;
                  not_connected = free;
                  entry = entry;
                  known_entry = known;
                  same_key = eq_bytes→eq identity_pk (c.serialize entry.identity_pk) same;
                },
                ground (arith, above, below, free, known, same),
              )
            ]
      ]
    ]
  ]

  -- The links so far: ids below the number of tracers, none of them that of this tracer.
  pub record IsLinked (peers : Map ℕ) : Type 0 where
    pub ascending : Ascends 0 peers
    pub in_range : Below (length roster) peers
    pub not_self : lookup index peers ≡ none

  admit-IsLinked :
      (peers : Map ℕ) (socket : ℕ) (msg : Message c)
      → IsLinked peers
      → Safe IsLinked (admit c index roster peers socket msg)
  admit-IsLinked peers socket msg h = elim (admit_cases peers socket msg) [
    | inl same ↦ rw same h
    | inr (id, pk, identity_pk, e, a, added) ↦ rw added (record {
      ascending = insert-Ascends 0 id socket peers (omega arith) h.ascending;
      in_range = insert-Below (length roster) id socket peers a.below h.in_range;
      not_self =
          let lt = a.above in ground (arith, lookup-insert index id socket peers, h.not_self, lt);
    })
  ]

  -- Linked, and with a link to every other tracer.
  pub record IsComplete (peers : Map ℕ) : Type 0 where
    pub linked : IsLinked peers
    pub all :
        (j : ℕ) → j < length roster → j ≢ index → (socket : ℕ) × (lookup j peers ≡ some socket)

  IsComplete-of_length :
      (peers : Map ℕ)
      → index < length roster
      → IsLinked peers
      → length roster ≤ suc (length peers)
      → IsComplete peers
  IsComplete-of_length peers h linked enough = record {
    linked = linked;
    all = λ j lt other.
        lookup_of_full_but (length roster) index j 0 peers linked.ascending linked.in_range h
          linked.not_self
          (omega (
            arith,
            enough,
            length-lt_of_absent (length roster) index 0 peers linked.ascending linked.in_range h
                linked.not_self,
          ))
          lt other;
  }

  -- One test of the loop's condition.
  loop-IsComplete :
      (more : Outcome MeshError (Map ℕ)) (peers : Map ℕ)
      → index < length roster
      → IsLinked peers
      → Safe IsComplete more
      → Safe IsComplete (if ltb (length peers) (length roster - 1) then more else ok peers)
  loop-IsComplete more peers h linked next =
      elim (Bool-cases (ltb (length peers) (length roster - 1))) [
        | inl fewer ↦ rw fewer next
        | inr enough ↦ rw enough (IsComplete-of_length peers h linked (ground (arith, enough)))
      ]

  accept_links-IsComplete :
      (inbound : List (Inbound c)) (peers : Map ℕ)
      → index < length roster
      → IsLinked peers
      → Safe IsComplete (accept_links c index roster inbound peers)
  unfolding accept_links
  accept_links-IsComplete [] peers h linked = loop-IsComplete (err still_waiting) peers h linked tt
  accept_links-IsComplete (failed ∷ later) peers h linked =
      loop-IsComplete (err accept_failed) peers h linked tt
  accept_links-IsComplete (unreadable socket ∷ later) peers h linked =
      loop-IsComplete _ peers h linked (accept_links-IsComplete later peers h linked)
  accept_links-IsComplete (received socket msg ∷ later) peers h linked =
      loop-IsComplete _ peers h linked (
        Safe-bind IsComplete IsLinked (admit c index roster peers socket msg)
          (λ peers'. accept_links c index roster later peers')
          (admit-IsLinked peers socket msg linked)
          (λ peers' linked'. accept_links-IsComplete later peers' h linked'))

  -- The links after dialling: to the tracers below `peer`.
  abbrev Dialled : ℕ → Map ℕ → Type 0
  Dialled peer peers = Ascends 0 peers × Below peer peers × (length peers ≡ peer)

  dial-Dialled :
      (dialled : ℕ → Option ℕ) (left peer : ℕ) (peers : Map ℕ)
      → Dialled peer peers
      → Safe (Dialled (peer + left)) (dial dialled left peer peers)
  unfolding dial
  dial-Dialled dialled zero peer peers h = subst (λ k. Dialled k peers) (omega arith) h
  dial-Dialled dialled (suc left) peer peers (a, l, e) =
      Safe-ok_or (Dialled (peer + suc left)) (link io) (dialled peer)
        (λ socket. dial dialled left (suc peer) (insert peer socket peers))
        λ socket _.
          subst (λ k. Safe (Dialled k) (dial dialled left (suc peer) (insert peer socket peers)))
            (omega arith)
            (dial-Dialled dialled left (suc peer) (insert peer socket peers) (
              insert-Ascends 0 peer socket peers (omega arith) a,
              insert-Below (suc peer) peer socket peers (omega arith)
                  (Below-weaken peer (suc peer) peers (omega arith) l),
              omega (
                arith,
                e,
                length-insert_new peer socket peers (lookup_above peer peer peers (omega arith) l),
              ),
            ))

  dial_all : (dialled : ℕ → Option ℕ) → Safe (Dialled index) (dial dialled index 0 [])
  dial_all dialled =
      subst (λ k. Safe (Dialled k) (dial dialled index 0 [])) (omega arith)
        (dial-Dialled dialled index 0 [] (tt, tt, refl))

  Dialled-IsLinked : (peers : Map ℕ) → index < length roster → Dialled index peers → IsLinked peers
  Dialled-IsLinked peers h (a, l, e) = record {
    ascending = a;
    in_range = Below-weaken index (length roster) peers (omega (arith, h)) l;
    not_self = lookup_above index index peers (omega arith) l;
  }

  -- The mesh has the tracer's index and every link.
  abbrev pub IsEstablished : TracerMesh → Type 0
  IsEstablished mesh = (mesh.index ≡ index) × IsComplete mesh.peers

  -- However the listener binds and whoever connects: establishing a mesh never panics, and a mesh
  -- that is established, under the tracer's own index, has exactly one link to each other tracer of
  -- the roster, and none to itself.
  pub establish_complete :
      (bind : ℕ → Attempt NetError ℕ) (dialled : ℕ → Option ℕ) (inbound : List (Inbound c))
      → Safe IsEstablished (establish c bind dialled inbound index roster)
  unfolding establish
  establish_complete bind dialled inbound = elim (Bool-cases (ltb index (length roster))) [
    | inr outside ↦
        let e : establish c bind dialled inbound index roster
            ≡ err (out_of_range index (length roster)) =
          ground (arith, outside) in
        rw e tt
    | inl inside ↦ elim (Bool-cases (length roster == 1)) [
      | inl alone ↦
          let e : establish c bind dialled inbound index roster
              ≡ ok (record { index = index; peers = [] }) =
            ground (arith, inside, alone) in
          rw e (
            refl,
            IsComplete-of_length [] (ltb→lt _ _ inside)
                (record { ascending = tt; in_range = tt; not_self = refl }) (ground (arith, alone)),
          )
      | inr others ↦ elim (Bool-cases (ltb 0 (length roster - 1 - index))) [
        | inr last ↦
            let e : establish c bind dialled inbound index roster ≡ (
                dial dialled index 0 [] >>= λ peers. ok (record { index = index; peers = peers })) =
              ground (arith, inside, others, last) in
            rw e (
              Safe-bind IsEstablished (Dialled index) (dial dialled index 0 []) _ (dial_all dialled)
                λ peers h. (
                  refl,
                  IsComplete-of_length peers (ltb→lt _ _ inside)
                      (Dialled-IsLinked peers (ltb→lt _ _ inside) h)
                      (ground (arith, inside, last, h.2)),
                ))
        | inl more ↦ elim (bind_with_retry_returns bind) [
          | inr (e', unbound) ↦
              let e : establish c bind dialled inbound index roster ≡ err (link e') =
                ground (arith, inside, others, more, unbound) in
              rw e tt
          | inl (l, listens) ↦
              let e : establish c bind dialled inbound index roster ≡ (
                  dial dialled index 0 [] >>= λ peers.
                  accept_links c index roster inbound peers >>= λ peers'.
                  ok (record { index = index; peers = peers' })) =
                ground (arith, inside, others, more, listens) in
              rw e (
                Safe-bind IsEstablished (Dialled index) (dial dialled index 0 []) _
                  (dial_all dialled)
                  λ peers h.
                    Safe-bind IsEstablished IsComplete (accept_links c index roster inbound peers) _
                      (accept_links-IsComplete inbound peers (ltb→lt _ _ inside)
                        (Dialled-IsLinked peers (ltb→lt _ _ inside) h))
                      λ peers' complete. (refl, complete))
        ]
      ]
    ]
  ]

-- ===== src/Combiner/Returning.antt =====
-- The connection loop of src/bin/combiner.rs returns when everyone has connected.
use simulation_taps_tt.Base.{
  ℕ, suc, ◌+◌, ◌<◌, ◌≡◌, refl, subst, ◌⊎◌, inl, inr, Option, none, some, List, [], ◌∷◌, Bytes,
  length, get_elem?, set, get_elem?_in_bounds, get_elem?-set_self, ltb, Any, Every, Bool-cases,
  Option-cases, arith,
}
use simulation_taps_tt.Base.Outcome.{ok, Safe}
use simulation_taps_tt.Base.Slots.{filled, get_elem?-set_keeps}
use simulation_taps_tt.Crypto.{Suite}
use simulation_taps_tt.Network.{Role, signer, combiner, tracer, Message, hello, secure, broadcast}
use simulation_taps_tt.Authority.{Connection}
use simulation_taps_tt.Combiner.Node.{
  Streams, no_streams, connect_signer, connect_tracer, connect, accept_all,
}
use simulation_taps_tt.Combiner.Connections.{
  IsCounted, no_streams-IsCounted, connect_signer-Safe, connect_tracer-Safe,
}

-- The stream of an id is connected.
abbrev Has : ℕ → List (Option ℕ) → Type 0
Has i streams = (socket : ℕ) × (get_elem? streams i ≡ some (some socket))

-- If every id has a stream, all slots are taken.
filled_of_all :
    (streams : List (Option ℕ))
    → ((i : ℕ) → i < length streams → Has i streams)
    → filled streams ≡ length streams
filled_of_all [] h = refl
filled_of_all (none ∷ streams) h = let (socket, e) = h 0 (omega arith) in absurd (cc (e))
filled_of_all (some k ∷ streams) h =
    omega (arith, filled_of_all streams (λ i lt. h (suc i) (omega (arith, lt))))

-- Setting a free slot takes it, and leaves the others.
set-Has :
    (streams : List (Option ℕ)) (id socket i : ℕ)
    → get_elem? streams id ≡ some none
    → Has i streams
    → Has i (set streams id (some socket))
set-Has streams id socket i free (k, e) = (k, get_elem?-set_keeps streams i id k socket free e)

module _ (n n3 : ℕ) where
  -- What a connection leads to: no stream is lost.
  pub record IsLater (st st' : Streams) : Type 0 where
    pub counted : IsCounted n n3 st'
    pub signers : (i : ℕ) → Has i st.signers → Has i st'.signers
    pub tracers : (i : ℕ) → Has i st.tracers → Has i st'.tracers

  IsLater-same : (st : Streams) → IsCounted n n3 st → IsLater st st
  IsLater-same st v = record { counted = v; signers = λ i h. h; tracers = λ i h. h }

  connect_signer_has :
      (id socket : ℕ) (st : Streams)
      → IsCounted n n3 st
      → (st' : Streams) × (connect_signer n id socket st ≡ ok st')
        × IsLater st st'
        × (id < n → Has id st'.signers)
  unfolding connect_signer
  connect_signer_has id socket st v = elim (Bool-cases (ltb id n)) [
    | inr out ↦ (st, ground (arith, out), IsLater-same st v, λ lt. absurd (ground (arith, out, lt)))
    | inl below ↦
        let (old, e) =
          get_elem?_in_bounds st.signers id (ground (arith, v.signers_length, below)) in
        elim (Option-cases old) [
          | inr (a, taken) ↦
              let here : get_elem? st.signers id ≡ some (some a) = ground (arith, e, taken) in
              (st, ground (arith, below, here), IsLater-same st v, λ _. (a, here))
          | inl free ↦
              let here : get_elem? st.signers id ≡ some none = ground (arith, e, free) in
              let st' : Streams = record st {
                signers = set st.signers id (some socket);
                connected_count = st.connected_count + 1;
              } in
              let e' : connect_signer n id socket st ≡ ok st' = ground (arith, below, here) in
              (
                st',
                e',
                record {
                  counted =
                      subst (Safe (IsCounted n n3)) e' (connect_signer-Safe n n3 st v id socket);
                  signers = λ i h. set-Has st.signers id socket i here h;
                  tracers = λ i h. h;
                },
                λ lt. (
                  socket,
                  get_elem?-set_self st.signers id (some socket)
                      (ground (arith, v.signers_length, lt)),
                ),
              )
        ]
  ]

  connect_tracer_has :
      (id socket : ℕ) (st : Streams)
      → IsCounted n n3 st
      → (st' : Streams) × (connect_tracer n3 id socket st ≡ ok st')
        × IsLater st st'
        × (id < n3 → Has id st'.tracers)
  unfolding connect_tracer
  connect_tracer_has id socket st v = elim (Bool-cases (ltb id n3)) [
    | inr out ↦ (st, ground (arith, out), IsLater-same st v, λ lt. absurd (ground (arith, out, lt)))
    | inl below ↦
        let (old, e) =
          get_elem?_in_bounds st.tracers id (ground (arith, v.tracers_length, below)) in
        elim (Option-cases old) [
          | inr (a, taken) ↦
              let here : get_elem? st.tracers id ≡ some (some a) = ground (arith, e, taken) in
              (st, ground (arith, below, here), IsLater-same st v, λ _. (a, here))
          | inl free ↦
              let here : get_elem? st.tracers id ≡ some none = ground (arith, e, free) in
              let st' : Streams = record st {
                tracers = set st.tracers id (some socket);
                connected_count = st.connected_count + 1;
              } in
              let e' : connect_tracer n3 id socket st ≡ ok st' = ground (arith, below, here) in
              (
                st',
                e',
                record {
                  counted =
                      subst (Safe (IsCounted n n3)) e' (connect_tracer-Safe n n3 st v id socket);
                  signers = λ i h. h;
                  tracers = λ i h. set-Has st.tracers id socket i here h;
                },
                λ lt. (
                  socket,
                  get_elem?-set_self st.tracers id (some socket)
                      (ground (arith, v.tracers_length, lt)),
                ),
              )
        ]
  ]

  module _ {c : Suite} where
    -- A `Hello` with this role and id.
    abbrev Greets : Role → ℕ → Message c → Type 0
    Greets role i msg = (pk : Bytes) × (identity_pk : Bytes) × (msg ≡ hello i role pk identity_pk)

    -- One of the connections announces the role and the id.
    abbrev pub Announced : Role → ℕ → List (Connection c) → Type 0
    Announced role i =
        Any (λ conn. (msg : Message c) × (conn.received ≡ some msg) × Greets role i msg)

    -- What is received can be read.
    abbrev pub Readable : List (Connection c) → Type 0
    Readable = Every (λ conn. (msg : Message c) × (conn.received ≡ some msg))

    connect_has :
        (socket : ℕ) (msg : Message c) (st : Streams)
        → IsCounted n n3 st
        → (st' : Streams) × (connect n n3 socket msg st ≡ ok st')
          × IsLater st st'
          × ((i : ℕ) → i < n → Greets signer i msg → Has i st'.signers)
          × ((i : ℕ) → i < n3 → Greets tracer i msg → Has i st'.tracers)
    unfolding connect
    connect_has socket (hello id signer _ _) st v =
        let (st', e, later, here) = connect_signer_has id socket st v in
        (
          st',
          e,
          later,
          λ i lt (_, _, same).
              let eq : id ≡ i = cc (same) in
              subst (λ j. Has j st'.signers) eq (here (ground (arith, lt, eq))),
          λ i lt (_, _, same). absurd (cc (same)),
        )
    connect_has socket (hello id tracer _ _) st v =
        let (st', e, later, here) = connect_tracer_has id socket st v in
        (
          st',
          e,
          later,
          λ i lt (_, _, same). absurd (cc (same)),
          λ i lt (_, _, same).
              let eq : id ≡ i = cc (same) in
              subst (λ j. Has j st'.tracers) eq (here (ground (arith, lt, eq))),
        )
    connect_has socket (hello id combiner _ _) st v = (
      st,
      refl,
      IsLater-same st v,
      λ i lt (_, _, same). absurd (cc (same)),
      λ i lt (_, _, same). absurd (cc (same)),
    )
    connect_has socket (secure _) st v = (
      st,
      refl,
      IsLater-same st v,
      λ i lt (_, _, same). absurd (cc (same)),
      λ i lt (_, _, same). absurd (cc (same)),
    )
    connect_has socket (broadcast _) st v = (
      st,
      refl,
      IsLater-same st v,
      λ i lt (_, _, same). absurd (cc (same)),
      λ i lt (_, _, same). absurd (cc (same)),
    )

    accept_all_from :
        (conns : List (Connection c)) (st : Streams)
        → Readable conns
        → IsCounted n n3 st
        → ((i : ℕ) → i < n → Has i st.signers ⊎ Announced signer i conns)
        → ((i : ℕ) → i < n3 → Has i st.tracers ⊎ Announced tracer i conns)
        → (st' : Streams) × (accept_all n n3 conns st ≡ ok st')
    unfolding accept_all
    accept_all_from [] st readable v signers tracers =
        let all_signers = filled_of_all st.signers (λ i lt.
          elim (signers i (ground (arith, v.signers_length, lt))) [
            | inl h ↦ h
            | inr h ↦ absurd h
          ]) in
        let all_tracers = filled_of_all st.tracers (λ i lt.
          elim (tracers i (ground (arith, v.tracers_length, lt))) [
            | inl h ↦ h
            | inr h ↦ absurd h
          ]) in
        (
          st,
          ground (arith, v.counted, v.signers_length, v.tracers_length, all_signers, all_tracers),
        )
    accept_all_from (conn ∷ conns) st ((msg, read), readable) v signers tracers =
        elim (Bool-cases (ltb st.connected_count (n + n3))) [
          | inr enough ↦ (st, ground (arith, enough))
          | inl more ↦
              let (st1, e, later, new_signer, new_tracer) = connect_has conn.socket msg st v in
              let (st', done) =
                accept_all_from conns st1 readable later.counted
                  (λ i lt. elim (signers i lt) [
                    | inl h ↦ inl (later.signers i h)
                    | inr (inl (msg', read', greets)) ↦
                        let same : msg' ≡ msg = cc (read, read') in
                        inl (new_signer i lt (subst (Greets signer i) same greets))
                    | inr (inr h) ↦ inr h
                  ])
                  (λ i lt. elim (tracers i lt) [
                    | inl h ↦ inl (later.tracers i h)
                    | inr (inl (msg', read', greets)) ↦
                        let same : msg' ≡ msg = cc (read, read') in
                        inl (new_tracer i lt (subst (Greets tracer i) same greets))
                    | inr (inr h) ↦ inr h
                  ]) in
              (st', ground (arith, more, read, e, done))
        ]

    -- If what is received on every connection can be read, and every signer below `n` and every
    -- tracer below `n3` announces itself on one of them, then the connection loop returns: it does
    -- not wait for more, however the connections are ordered and whatever else comes in between.
    pub accept_all_returns :
        (conns : List (Connection c))
        → Readable conns
        → ((i : ℕ) → i < n → Announced signer i conns)
        → ((i : ℕ) → i < n3 → Announced tracer i conns)
        → (st : Streams) × (accept_all n n3 conns (no_streams n n3) ≡ ok st)
    accept_all_returns conns readable signers tracers =
        accept_all_from conns (no_streams n n3) readable (no_streams-IsCounted n n3)
          (λ i lt. inr (signers i lt)) (λ i lt. inr (tracers i lt))

-- ===== src/Combiner/Connections.antt =====
-- The connection loop of src/bin/combiner.rs gives every signer and every tracer one stream.
use simulation_taps_tt.Base.{
  ℕ, ◌+◌, ◌<◌, ◌≡◌, inl, inr, none, some, List, [], ◌∷◌, length, length-set, length-replicate,
  get_elem?, ltb, get_elem?_in_bounds, Bool-cases, Option-cases, false, arith,
}
use simulation_taps_tt.Base.Outcome.{Safe, Safe-ok_or, Safe-bind}
use simulation_taps_tt.Base.Slots.{
  filled, filled-le-length, filled-set, filled-replicate, get_elem?-filled,
}
use simulation_taps_tt.Crypto.{Suite}
use simulation_taps_tt.Network.{signer, combiner, tracer, Message, hello, secure, broadcast}
use simulation_taps_tt.Authority.{Connection}
use simulation_taps_tt.Combiner.Node.{
  Streams, no_streams, receive_failed, connect_signer, connect_tracer, connect, accept_all,
}

module _ (n n3 : ℕ) where
  -- One slot for each id, and the counter counts the slots that are taken.
  pub record IsCounted (st : Streams) : Type 0 where
    pub signers_length : length st.signers ≡ n
    pub tracers_length : length st.tracers ≡ n3
    pub counted : st.connected_count ≡ filled st.signers + filled st.tracers

  -- Every id has a stream.
  pub record IsConnected (st : Streams) : Type 0 where
    pub signer_streams :
        (i : ℕ) → i < n → (socket : ℕ) × (get_elem? st.signers i ≡ some (some socket))
    pub tracer_streams :
        (i : ℕ) → i < n3 → (socket : ℕ) × (get_elem? st.tracers i ≡ some (some socket))

  pub no_streams-IsCounted : IsCounted (no_streams n n3)
  unfolding no_streams
  no_streams-IsCounted = record {
    signers_length = length-replicate n none;
    tracers_length = length-replicate n3 none;
    counted = omega (arith, filled-replicate ℕ n, filled-replicate ℕ n3);
  }

  module _ (st : Streams) (v : IsCounted st) where
    pub connect_signer-Safe : (id socket : ℕ) → Safe IsCounted (connect_signer n id socket st)
    unfolding connect_signer
    connect_signer-Safe id socket = elim (Bool-cases (ltb id n)) [
      | inr out ↦ ground arith
      | inl in_range ↦
          let (old, e) = get_elem?_in_bounds st.signers id (ground (arith, v.signers_length)) in
          elim (Option-cases old) [
            | inl free ↦
                ground
                  (arith, filled-set st.signers id socket, length-set st.signers id (some socket))
            | inr (a, taken) ↦ ground arith
          ]
    ]

    pub connect_tracer-Safe : (id socket : ℕ) → Safe IsCounted (connect_tracer n3 id socket st)
    unfolding connect_tracer
    connect_tracer-Safe id socket = elim (Bool-cases (ltb id n3)) [
      | inr out ↦ ground arith
      | inl in_range ↦
          let (old, e) = get_elem?_in_bounds st.tracers id (ground (arith, v.tracers_length)) in
          elim (Option-cases old) [
            | inl free ↦
                ground
                  (arith, filled-set st.tracers id socket, length-set st.tracers id (some socket))
            | inr (a, taken) ↦ ground arith
          ]
    ]

    connect-Safe :
        {c : Suite} (socket : ℕ) (msg : Message c) → Safe IsCounted (connect n n3 socket msg st)
    unfolding connect
    connect-Safe socket (hello id signer _ _) = connect_signer-Safe id socket
    connect-Safe socket (hello id tracer _ _) = connect_tracer-Safe id socket
    connect-Safe socket (hello id combiner _ _) = v
    connect-Safe socket (secure _) = v
    connect-Safe socket (broadcast _) = v

    IsConnected-of_count : ltb st.connected_count (n + n3) ≡ false → IsConnected st
    IsConnected-of_count done =
        let s = filled-le-length st.signers in
        let t = filled-le-length st.tracers in
        record {
          signer_streams = λ i h.
              get_elem?-filled st.signers i
                (ground (arith, v.counted, v.signers_length, v.tracers_length))
                (omega (arith, v.signers_length));
          tracer_streams = λ i h.
              get_elem?-filled st.tracers i
                (ground (arith, v.counted, v.signers_length, v.tracers_length))
                (omega (arith, v.tracers_length));
        }

  accept_all-Safe :
      {c : Suite} (conns : List (Connection c)) (st : Streams)
      → IsCounted st
      → Safe IsConnected (accept_all n n3 conns st)
  unfolding accept_all
  accept_all-Safe [] st v = elim (Bool-cases (ltb st.connected_count (n + n3))) [
    | inl more ↦ rw more tt
    | inr done ↦ rw done (IsConnected-of_count st v done)
  ]
  accept_all-Safe (conn ∷ conns) st v = elim (Bool-cases (ltb st.connected_count (n + n3))) [
    | inl more ↦ rw more (
        Safe-ok_or IsConnected receive_failed conn.received _ λ msg _.
          Safe-bind IsConnected IsCounted (connect n n3 conn.socket msg st) _
            (connect-Safe st v conn.socket msg) λ st' v'. accept_all-Safe conns st' v')
    | inr done ↦ rw done (IsConnected-of_count st v done)
  ]

  -- Whatever connects and whatever it sends, the loop never panics, and when it returns the streams,
  -- every signer below `n` and every tracer below `n3` has one: the loops behind it, which pass over
  -- an empty slot, pass over none.
  pub accept_all_complete :
      {c : Suite} (conns : List (Connection c))
      → Safe IsConnected (accept_all n n3 conns (no_streams n n3))
  accept_all_complete conns = accept_all-Safe conns (no_streams n n3) no_streams-IsCounted

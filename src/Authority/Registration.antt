-- ===== src/Authority/Registration.antt =====
-- The connection loop registers every actor once, in bounds, and ends only when all are there.
use simulation_taps_tt.Base.{
  ℕ, ◌+◌, ◌≡◌, inl, inr, Option, none, some, List, [], ◌∷◌, length, length-set, length-replicate,
  get_elem?, ltb, leb, get_elem?_in_bounds, Bool-cases, Option-cases, sym, ◌∙◌, false, arith,
}
use simulation_taps_tt.Base.Outcome.{ok, Safe, Safe-ok_or, Safe-bind, Safe-map}
use simulation_taps_tt.Base.Slots.{
  filled, filled-le-length, filled-set, filled-replicate, collect, collect-filled,
  get_elem?-set_keeps,
}
use simulation_taps_tt.Crypto.{Suite, ActorKeys}
use simulation_taps_tt.Network.{
  NetError, io, invalid_key, Role, signer, combiner, tracer, Message, hello, secure, broadcast,
}
use simulation_taps_tt.Authority.Server.{
  Slot, Connection, Registry, empty_registry, register_signer, register_combiner, register_tracer,
  register, handle_message, handshake,
}

module _ (c : Suite) (n n3 : ℕ) where
  abbrev one_if_taken : Option (Slot c) → ℕ
  one_if_taken none = 0
  one_if_taken (some _) = 1

  -- One slot for each id, and the counter counts the slots that are taken.
  pub record IsValid (r : Registry c) : Type 0 where
    pub signers_length : length r.signers ≡ n
    pub tracers_length : length r.tracers ≡ n3
    pub counted : r.connected_count ≡ filled r.signers + one_if_taken r.combiner + filled r.tracers

  empty_registry-IsValid : IsValid (empty_registry c n n3)
  unfolding empty_registry
  empty_registry-IsValid = record {
    signers_length = length-replicate n none;
    tracers_length = length-replicate n3 none;
    counted = omega (arith, filled-replicate (Slot c) n, filled-replicate (Slot c) n3);
  }

  module _ (r : Registry c) (v : IsValid r) where
    register_signer-Safe : (id : ℕ) (slot : Slot c) → Safe IsValid (register_signer c n id slot r)
    unfolding register_signer
    register_signer-Safe id slot = elim (Bool-cases (leb n id)) [
      | inl out ↦ ground arith
      | inr in_range ↦
          let (old, e) = get_elem?_in_bounds r.signers id (ground (arith, v.signers_length)) in
          elim (Option-cases old) [
            | inl free ↦
                ground (arith, filled-set r.signers id slot, length-set r.signers id (some slot))
            | inr (a, taken) ↦ ground arith
          ]
    ]

    register_combiner-Safe : (slot : Slot c) → Safe IsValid (register_combiner c slot r)
    unfolding register_combiner
    register_combiner-Safe slot = ground arith

    register_tracer-Safe : (id : ℕ) (slot : Slot c) → Safe IsValid (register_tracer c n3 id slot r)
    unfolding register_tracer
    register_tracer-Safe id slot = elim (Bool-cases (leb n3 id)) [
      | inl out ↦ ground arith
      | inr in_range ↦
          let (old, e) = get_elem?_in_bounds r.tracers id (ground (arith, v.tracers_length)) in
          elim (Option-cases old) [
            | inl free ↦
                ground (arith, filled-set r.tracers id slot, length-set r.tracers id (some slot))
            | inr (a, taken) ↦ ground arith
          ]
    ]

    register-Safe :
        (role : Role) (id : ℕ) (slot : Slot c) → Safe IsValid (register c n n3 role id slot r)
    unfolding register
    register-Safe signer id slot = register_signer-Safe id slot
    register-Safe combiner id slot = register_combiner-Safe slot
    register-Safe tracer id slot = register_tracer-Safe id slot

    handle_message-Safe :
        (socket : ℕ) (msg : Message c) → Safe IsValid (handle_message c n n3 socket msg r)
    unfolding handle_message
    handle_message-Safe socket (hello id role pk identity_pk) =
        Safe-ok_or IsValid invalid_key (c.from_slice pk) _ λ transport_pk _.
          Safe-ok_or IsValid invalid_key (c.from_slice identity_pk) _
            λ identity_pk' _. register-Safe role id _
    handle_message-Safe socket (secure _) = v
    handle_message-Safe socket (broadcast _) = v

  -- Where the loop ends, every actor has connected.
  abbrev IsComplete : Registry c → Type 0
  IsComplete r =
      IsValid r
      × (filled r.signers ≡ n)
      × (filled r.tracers ≡ n3)
      × ((slot : Slot c) × (r.combiner ≡ some slot))

  IsComplete-of_count :
      (r : Registry c) → IsValid r → ltb r.connected_count (n + 1 + n3) ≡ false → IsComplete r
  IsComplete-of_count r v done =
      let s = filled-le-length r.signers in
      let t = filled-le-length r.tracers in
      elim (Option-cases r.combiner) [
        | inl absent ↦ absurd (ground (arith, v.counted, v.signers_length, v.tracers_length))
        | inr (slot, e) ↦ (
          v,
          ground (arith, v.counted, v.signers_length, v.tracers_length),
          ground (arith, v.counted, v.signers_length, v.tracers_length),
          (slot, e),
        )
      ]

  handshake-Safe :
      (conns : List (Connection c)) (r : Registry c)
      → IsValid r
      → Safe IsComplete (handshake c n n3 conns r)
  unfolding handshake
  handshake-Safe [] r v = elim (Bool-cases (ltb r.connected_count (n + 1 + n3))) [
    | inl more ↦ rw more tt
    | inr done ↦ rw done (IsComplete-of_count r v done)
  ]
  handshake-Safe (conn ∷ conns) r v = elim (Bool-cases (ltb r.connected_count (n + 1 + n3))) [
    | inl more ↦ rw more (
        Safe-ok_or IsComplete io conn.received _ λ msg _.
          Safe-bind IsComplete IsValid (handle_message c n n3 conn.socket msg r) _
            (handle_message-Safe r v conn.socket msg) λ r' v'. handshake-Safe conns r' v')
    | inr done ↦ rw done (IsComplete-of_count r v done)
  ]

  -- There are a Combiner and the keys of `n` signers and of `n3` tracers: the errors "Combiner never
  -- registered", `e` ("Missing signer") and `e'` ("Missing tracer") behind the loop cannot occur.
  pub record IsRegistered (e e' : NetError) (r : Registry c) : Type 0 where
    pub combiner_slot : Slot c
    pub known_combiner : r.combiner ≡ some combiner_slot
    pub signer_keys : List (ActorKeys c)
    pub known_signers : collect (λ (slot : Slot c). slot.1) e r.signers ≡ ok signer_keys
    pub signers_count : length signer_keys ≡ n
    pub tracer_keys : List (ActorKeys c)
    pub known_tracers : collect (λ (slot : Slot c). slot.1) e' r.tracers ≡ ok tracer_keys
    pub tracers_count : length tracer_keys ≡ n3

  IsRegistered-of_complete : (e e' : NetError) (r : Registry c) → IsComplete r → IsRegistered e e' r
  IsRegistered-of_complete e e' r (v, s, t, (slot, known)) =
      let (ks, ck, lk, _) =
        collect-filled (λ (slot : Slot c). slot.1) e r.signers (s ∙ sym v.signers_length) in
      let (kt, ct, lt, _) =
        collect-filled (λ (slot : Slot c). slot.1) e' r.tracers (t ∙ sym v.tracers_length) in
      record {
        combiner_slot = slot;
        known_combiner = known;
        signer_keys = ks;
        known_signers = ck;
        signers_count = lk ∙ v.signers_length;
        tracer_keys = kt;
        known_tracers = ct;
        tracers_count = lt ∙ v.tracers_length;
      }

  -- From the empty registry, whatever connects and whatever it sends, the loop never panics (no
  -- index is out of bounds), and when it returns a registry, a Combiner is registered, and the keys
  -- of `n` signers and of `n3` tracers can be collected: the errors behind the loop cannot occur.
  pub handshake_complete :
      (conns : List (Connection c)) (e e' : NetError)
      → Safe (IsRegistered e e') (handshake c n n3 conns (empty_registry c n n3))
  handshake_complete conns e e' =
      Safe-map IsComplete (IsRegistered e e') (handshake c n n3 conns (empty_registry c n n3))
        (IsRegistered-of_complete e e')
        (handshake-Safe conns (empty_registry c n n3) empty_registry-IsValid)

  -- The slot of an id, or of the Combiner, is taken.
  abbrev pub Taken : Registry c → Role → ℕ → Slot c → Type 0
  Taken r signer i slot = get_elem? r.signers i ≡ some (some slot)
  Taken r tracer i slot = get_elem? r.tracers i ≡ some (some slot)
  Taken r combiner i slot = r.combiner ≡ some slot

  -- A slot that is taken keeps its first entry: no later connection replaces registered keys.
  pub handle_message_keeps :
      (r r' : Registry c) (socket i : ℕ) (role : Role) (msg : Message c) (slot : Slot c)
      → handle_message c n n3 socket msg r ≡ ok r'
      → Taken r role i slot
      → Taken r' role i slot
  unfolding handle_message register register_signer register_combiner register_tracer
  handle_message_keeps r r' socket i role (secure _) slot h k = kept role k
    where
      kept : (role : Role) → Taken r role i slot → Taken r' role i slot
      kept signer k = ground (arith, h)
      kept tracer k = ground (arith, h)
      kept combiner k = ground (arith, h)
  handle_message_keeps r r' socket i role (broadcast _) slot h k = kept role k
    where
      kept : (role : Role) → Taken r role i slot → Taken r' role i slot
      kept signer k = ground (arith, h)
      kept tracer k = ground (arith, h)
      kept combiner k = ground (arith, h)
  handle_message_keeps r r' socket i signer (hello id signer pk identity_pk) slot h k =
      grind (arith, get_elem?-set_keeps r.signers i id slot)
  handle_message_keeps r r' socket i tracer (hello id signer pk identity_pk) slot h k = ground arith
  handle_message_keeps r r' socket i combiner (hello id signer pk identity_pk) slot h k =
      ground arith
  handle_message_keeps r r' socket i signer (hello id combiner pk identity_pk) slot h k =
      ground arith
  handle_message_keeps r r' socket i tracer (hello id combiner pk identity_pk) slot h k =
      ground arith
  handle_message_keeps r r' socket i combiner (hello id combiner pk identity_pk) slot h k =
      ground arith
  handle_message_keeps r r' socket i signer (hello id tracer pk identity_pk) slot h k = ground arith
  handle_message_keeps r r' socket i tracer (hello id tracer pk identity_pk) slot h k =
      grind (arith, get_elem?-set_keeps r.tracers i id slot)
  handle_message_keeps r r' socket i combiner (hello id tracer pk identity_pk) slot h k =
      ground arith

-- ===== src/Authority/Server.antt =====
-- src/bin/authority.rs: the handshake with every actor, and the distribution of the packages. A
-- socket is the number of its connection.
use simulation_taps_tt.Base.{
  ℕ, suc, ◌+◌, Option, none, some, List, [], ◌∷◌, ◌++◌, Bytes, replicate, get_elem?, set, not, ltb,
  leb, ◌==◌, if◌then◌else◌,
}
use simulation_taps_tt.Base.Outcome.{Outcome, ok, err, expect, ok_or, guard, ◌>>=◌, ◌>>◌}
use simulation_taps_tt.Base.Slots.{collect}
use simulation_taps_tt.Crypto.{Suite, Codec, SecurePackage, ActorKeys}
use simulation_taps_tt.Network.{
  NetError, io, invalid_key, still_waiting, message, Role, signer, combiner, tracer, Message, hello,
  secure, broadcast,
}
use simulation_taps_tt.Taps.{Taps}
use simulation_taps_tt.Authority.Defs.{
  Authority, SignerPackage, CombinerPackage, TracerPackage, signer_threshold, tracer_threshold,
  set_quorum, prepare_signer_package, prepare_combiner_package, prepare_tracer_package,
}

-- `(TcpStream, ActorKeys)`
abbrev pub Slot : Suite → Type 0
Slot c = ℕ × ActorKeys c

-- A connection that the listener accepts: its socket, and the message that is received on it, or
-- `none` if receiving fails.
pub record Connection (c : Suite) : Type 0 where
  pub socket : ℕ
  pub received : Option (Message c)

-- The local variables of the connection loop.
pub record Registry (c : Suite) : Type 0 where
  pub signers : List (Option (Slot c))
  pub combiner : Option (Slot c)
  pub tracers : List (Option (Slot c))
  pub connected_count : ℕ

module _ (c : Suite) where
  unfoldable pub empty_registry : ℕ → ℕ → Registry c
  empty_registry n n3 = record {
    signers = replicate n none;
    combiner = none;
    tracers = replicate n3 none;
    connected_count = 0;
  }

  -- The three arms of `match role`. An index out of bounds would panic.
  unfoldable pub register_signer : ℕ → ℕ → Slot c → Registry c → Outcome NetError (Registry c)
  register_signer n id slot r = if leb n id then ok r else do
    old ← expect "index out of bounds" (get_elem? r.signers id)
    elim old [
      | some _ ↦ ok r
      | none ↦ ok (record r {
        signers = set r.signers id (some slot);
        connected_count = r.connected_count + 1;
      })
    ]

  unfoldable pub register_combiner : Slot c → Registry c → Outcome NetError (Registry c)
  register_combiner slot r = elim r.combiner [
    | some _ ↦ ok r
    | none ↦ ok (record r { combiner = some slot; connected_count = r.connected_count + 1 })
  ]

  unfoldable pub register_tracer : ℕ → ℕ → Slot c → Registry c → Outcome NetError (Registry c)
  register_tracer n3 id slot r = if leb n3 id then ok r else do
    old ← expect "index out of bounds" (get_elem? r.tracers id)
    elim old [
      | some _ ↦ ok r
      | none ↦ ok (record r {
        tracers = set r.tracers id (some slot);
        connected_count = r.connected_count + 1;
      })
    ]

  -- `match role`
  unfoldable pub register : ℕ → ℕ → Role → ℕ → Slot c → Registry c → Outcome NetError (Registry c)
  register n n3 signer id slot r = register_signer n id slot r
  register n n3 combiner id slot r = register_combiner slot r
  register n n3 tracer id slot r = register_tracer n3 id slot r

  -- `match msg`
  unfoldable pub handle_message : ℕ → ℕ → ℕ → Message c → Registry c → Outcome NetError (Registry c)
  handle_message n n3 socket (hello id role pk identity_pk) r = do
    transport_pk ← ok_or invalid_key (c.from_slice pk)
    identity_pk' ← ok_or invalid_key (c.from_slice identity_pk)
    register n n3 role id
        (socket, record { identity_pk = identity_pk'; transport_pk = transport_pk }) r
  handle_message n n3 socket (secure _) r = ok r
  handle_message n n3 socket (broadcast _) r = ok r

  -- The connection loop, over the connections that come in.
  unfoldable pub handshake :
      ℕ → ℕ → List (Connection c) → Registry c → Outcome NetError (Registry c)
  handshake n n3 [] r = if ltb r.connected_count (n + 1 + n3) then err still_waiting else ok r
  handshake n n3 (conn ∷ conns) r =
      let next : Outcome NetError (Registry c) = (do
        msg ← ok_or io conn.received
        r' ← handle_message n n3 conn.socket msg r
        handshake n n3 conns r') in
      if ltb r.connected_count (n + 1 + n3) then next else ok r

-- The random nonce and the clock at each package that is sealed.
pub record Draws : Type 0 where
  pub random : ℕ → Bytes
  pub clock : ℕ → ℕ

-- What is put on a socket.
abbrev pub Sent : Suite → Type 0
Sent c = ℕ × SecurePackage c

module _ (x : Taps) (auth : Authority x) (draws : Draws) where
  -- The loop over the signers. `i` is also the number of packages sealed before.
  unfoldable pub send_signers :
      Codec (SignerPackage x)
      → ActorKeys x.suite
      → ℕ
      → List (Option (Slot x.suite))
      → Outcome NetError (List (Sent x.suite))
  send_signers codec combiner_keys i [] = ok []
  send_signers codec combiner_keys i (none ∷ slots) = send_signers codec combiner_keys (suc i) slots
  send_signers codec combiner_keys i (some (socket, keys) ∷ slots) = do
    pkg ←
        prepare_signer_package x codec auth i combiner_keys keys.transport_pk (draws.random i)
          (draws.clock i)
    sent ← send_signers codec combiner_keys (suc i) slots
    ok ((socket, pkg) ∷ sent)

  -- The loop over the tracers, with the number of packages sealed before it.
  unfoldable pub send_tracers :
      Codec (TracerPackage x)
      → ℕ
      → ℕ
      → ℕ
      → ActorKeys x.suite
      → List (ActorKeys x.suite)
      → ℕ
      → ℕ
      → List (Option (Slot x.suite))
      → Outcome NetError (List (Sent x.suite))
  send_tracers codec n3 te t combiner_keys tracer_keys before i [] = ok []
  send_tracers codec n3 te t combiner_keys tracer_keys before i (none ∷ slots) =
      send_tracers codec n3 te t combiner_keys tracer_keys before (suc i) slots
  send_tracers codec n3 te t combiner_keys tracer_keys before i (some (socket, keys) ∷ slots) = do
    pkg ←
        prepare_tracer_package x codec auth i n3 te t combiner_keys tracer_keys keys.transport_pk
          (draws.random (before + i)) (draws.clock (before + i))
    sent ← send_tracers codec n3 te t combiner_keys tracer_keys before (suc i) slots
    ok ((socket, pkg) ∷ sent)

  -- `main`, from the parsed arguments: what is sent, in order.
  unfoldable pub serve :
      Codec (SignerPackage x)
      → Codec (CombinerPackage x)
      → Codec (TracerPackage x)
      → x.Seed
      → ℕ
      → ℕ
      → List (Connection x.suite)
      → Outcome NetError (List (Sent x.suite))
  serve signer_codec combiner_codec tracer_codec seed n n3 conns = do
    guard (not (n == 0)) (message "N must be at least 1")
    guard (not (n3 == 0)) (message "N3 (tracer count) must be at least 1")
    let t = signer_threshold n
    let te = tracer_threshold n3
    r ← handshake x.suite n n3 conns (empty_registry x.suite n n3)
    (combiner_socket, combiner_keys) ← ok_or (message "Combiner never registered") r.combiner
    signer_keys ← collect (λ slot. slot.1) (message "Missing signer") r.signers
    tracer_keys ← collect (λ slot. slot.1) (message "Missing tracer") r.tracers
    to_signers ← send_signers signer_codec combiner_keys 0 r.signers
    to_combiner ←
        prepare_combiner_package x combiner_codec auth (set_quorum x auth.keys t seed) n t n3 te
          signer_keys tracer_keys combiner_keys.transport_pk (draws.random n) (draws.clock n)
    to_tracers ← send_tracers tracer_codec n3 te t combiner_keys tracer_keys (n + 1) 0 r.tracers
    ok (to_signers ++ ((combiner_socket, to_combiner) ∷ to_tracers))

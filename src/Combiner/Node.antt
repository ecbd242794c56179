-- ===== src/Combiner/Node.antt =====
-- src/bin/combiner.rs: the connections, and the phases of the protocol as `main` runs them.
use simulation_taps_tt.Base.{
  ℕ, suc, ◌+◌, Option, none, some, List, [], ◌∷◌, Bytes, String, replicate, get_elem?, set, ltb,
  if◌then◌else◌,
}
use simulation_taps_tt.Base.Outcome
use simulation_taps_tt.Base.Outcome.{Outcome, ok, err, panic, expect, ok_or, guard}
use simulation_taps_tt.Base.Action.{Action, reads, modify, lift, ◌>>=◌, ◌>>◌}
use simulation_taps_tt.Crypto.{Suite, Codec, BroadcastPackage, Error}
use simulation_taps_tt.Network.{
  NetError, signer, combiner, tracer, Message, hello, secure, broadcast,
}
use simulation_taps_tt.Authority.{Connection}
use simulation_taps_tt.Taps.{Taps}
use simulation_taps_tt.Payloads.{
  SignerPackage, TracerPackage, TracerPublicKeyPackage, CommitmentPackage, SigmaPackage,
}
use simulation_taps_tt.Combiner.State.{Combiner}
use simulation_taps_tt.Combiner.Intake.{load_commitment, load_sigma, load_tracer_public_key}
use simulation_taps_tt.Combiner.GroupKey.{tracer_public_keys_complete, finalize_group_key}
use simulation_taps_tt.Combiner.Signing.{
  compute_aggregated_nonce, encrypt_threshold, compute_parameters, compute_aggregated_sign,
  compute_encrypted_signature,
}
use simulation_taps_tt.Combiner.Proving.{
  compute_alpha, compute_beta, compute_phis, compute_encrypted_bits, compute_blinds, compute_proofs,
  compute_hats, construct_sigma, prepare_signer_package, prepare_tracer_package,
}

-- The errors behind `Box<dyn Error>`. `still_waiting`: the call has not returned, since no further
-- connection has come in.
pub data NodeError : Type 0 where
  receive_failed send_failed still_waiting : NodeError
  link : NetError → NodeError
  protocol : Error → NodeError
  message : String → NodeError

-- `?` on a method of the Combiner.
abbrev pub try : {S A : Type 0} → Action S Error A → Action S NodeError A
try m s =
    let (r, s') = m s in
    elim r [ ok a ↦ (ok a, s') | err e ↦ (err (protocol e), s') | panic p ↦ (panic p, s') ]

-- The connection loop: who is connected, by the number of the connection.
pub record Streams : Type 0 where
  pub signers : List (Option ℕ)
  pub tracers : List (Option ℕ)
  pub connected_count : ℕ

unfoldable pub no_streams : ℕ → ℕ → Streams
no_streams n n3 = record {
  signers = replicate n none;
  tracers = replicate n3 none;
  connected_count = 0;
}

-- The arms for a signer and for a tracer; `id < n && stream[id].is_none()`.
unfoldable pub connect_signer : ℕ → ℕ → ℕ → Streams → Outcome NodeError Streams
connect_signer n id socket st =
    if ltb id n
    then (Outcome.◌>>=◌ (expect "index out of bounds" (get_elem? st.signers id)) λ old. elim old [
      | some _ ↦ ok st
      | none ↦ ok (record st {
        signers = set st.signers id (some socket);
        connected_count = st.connected_count + 1;
      })
    ])
    else ok st

unfoldable pub connect_tracer : ℕ → ℕ → ℕ → Streams → Outcome NodeError Streams
connect_tracer n3 id socket st =
    if ltb id n3
    then (Outcome.◌>>=◌ (expect "index out of bounds" (get_elem? st.tracers id)) λ old. elim old [
      | some _ ↦ ok st
      | none ↦ ok (record st {
        tracers = set st.tracers id (some socket);
        connected_count = st.connected_count + 1;
      })
    ])
    else ok st

module _ {c : Suite} where
  unfoldable pub connect : ℕ → ℕ → ℕ → Message c → Streams → Outcome NodeError Streams
  unfolding connect_signer connect_tracer
  connect n n3 socket (hello id signer _ _) st = connect_signer n id socket st
  connect n n3 socket (hello id tracer _ _) st = connect_tracer n3 id socket st
  connect n n3 socket (hello id combiner _ _) st = ok st
  connect n n3 socket (secure _) st = ok st
  connect n n3 socket (broadcast _) st = ok st

  unfoldable pub accept_all : ℕ → ℕ → List (Connection c) → Streams → Outcome NodeError Streams
  accept_all n n3 [] st = if ltb st.connected_count (n + n3) then err still_waiting else ok st
  accept_all n n3 (conn ∷ conns) st =
      let next : Outcome NodeError Streams =
        Outcome.◌>>=◌ (ok_or receive_failed conn.received)
          λ msg. Outcome.◌>>=◌ (connect n n3 conn.socket msg st) λ st'. accept_all n n3 conns st' in
      if ltb st.connected_count (n + n3) then next else ok st

-- The random values and the clock that the phases use.
pub record Randomness (x : Taps) : Type 0 where
  pub psi : x.Secret
  pub rho : x.Secret
  pub bits_seed : x.Seed
  pub blinds_seed : x.Seed
  pub challenge_nonce : Bytes
  pub attestation_nonce : Bytes

module _ (x : Taps) where
  -- What is received on a connection; `none` if receiving fails.
  abbrev pub Arrivals : Type 0
  Arrivals = ℕ → Option (Message x.suite)

  -- `for (id, stream_opt) in streams.iter_mut().enumerate()`, with `if let Some(stream)`, from `id`
  -- on.
  unfoldable pub for_streams :
      (ℕ → ℕ → Action (Combiner x) NodeError (Unit {0}))
      → ℕ
      → List (Option ℕ)
      → Action (Combiner x) NodeError (Unit {0})
  for_streams body id [] = modify (λ s. s)
  for_streams body id (none ∷ later) = for_streams body (suc id) later
  for_streams body id (some socket ∷ later) = body id socket >> for_streams body (suc id) later

  -- Phase 3: the loop over the tracers' streams. `now` is the clock when the message is handled.
  unfoldable pub take_public_key :
      Codec (TracerPublicKeyPackage x)
      → ℕ
      → ℕ
      → Option (Message x.suite)
      → Action (Combiner x) NodeError (Unit {0})
  take_public_key codec now id received = do
    msg ← lift (ok_or receive_failed received)
    elim msg [
      | secure p ↦ try (load_tracer_public_key x codec id p now)
      | _ ↦ lift (err (message "Expected pk_k from Tracer"))
    ]

  unfoldable pub collect_public_keys :
      Codec (TracerPublicKeyPackage x)
      → (ℕ → ℕ)
      → Arrivals
      → List (Option ℕ)
      → Action (Combiner x) NodeError (Unit {0})
  unfolding for_streams take_public_key
  collect_public_keys codec now arrivals =
      for_streams (λ id socket. take_public_key codec (now id) id (arrivals socket)) 0

  unfoldable pub group_key_phase :
      Codec (TracerPublicKeyPackage x)
      → (ℕ → ℕ)
      → Arrivals
      → List (Option ℕ)
      → Action (Combiner x) NodeError (Unit {0})
  group_key_phase codec now arrivals streams = do
    collect_public_keys codec now arrivals streams
    reads (λ s.
        guard (tracer_public_keys_complete x s) (message "Did not receive pk_k from every tracer"))
    try (finalize_group_key x)

  -- Round 1 and round 2: a message of another kind is passed over.
  unfoldable pub take_commitment :
      Codec (CommitmentPackage x)
      → ℕ
      → ℕ
      → Option (Message x.suite)
      → Action (Combiner x) NodeError (Unit {0})
  take_commitment codec now id received = do
    msg ← lift (ok_or receive_failed received)
    elim msg [ secure p ↦ try (load_commitment x codec id p now) | _ ↦ modify (λ s. s) ]

  unfoldable pub collect_commitments :
      Codec (CommitmentPackage x)
      → (ℕ → ℕ)
      → Arrivals
      → List (Option ℕ)
      → Action (Combiner x) NodeError (Unit {0})
  unfolding for_streams take_commitment
  collect_commitments codec now arrivals =
      for_streams (λ id socket. take_commitment codec (now id) id (arrivals socket)) 0

  unfoldable pub take_sigma :
      Codec (SigmaPackage x)
      → ℕ
      → ℕ
      → Option (Message x.suite)
      → Action (Combiner x) NodeError (Unit {0})
  take_sigma codec now id received = do
    msg ← lift (ok_or receive_failed received)
    elim msg [ secure p ↦ try (load_sigma x codec id p now) | _ ↦ modify (λ s. s) ]

  unfoldable pub collect_sigmas :
      Codec (SigmaPackage x)
      → (ℕ → ℕ)
      → Arrivals
      → List (Option ℕ)
      → Action (Combiner x) NodeError (Unit {0})
  unfolding for_streams take_sigma
  collect_sigmas codec now arrivals =
      for_streams (λ id socket. take_sigma codec (now id) id (arrivals socket)) 0

  -- From the commitments to the challenge that is broadcast to the signers.
  unfoldable pub challenge_phase :
      Codec (SignerPackage x)
      → Randomness x
      → Bytes
      → ℕ
      → Action (Combiner x) Error (BroadcastPackage x.suite)
  challenge_phase codec random text now = do
    compute_aggregated_nonce x
    encrypt_threshold x random.psi
    compute_parameters x text
    prepare_signer_package x codec random.challenge_nonce now

  -- From the shares to the attestation that is broadcast to the tracers.
  unfoldable pub attestation_phase :
      Codec (TracerPackage x)
      → Randomness x
      → Bytes
      → ℕ
      → ℕ
      → Action (Combiner x) Error (x.Sigma × BroadcastPackage x.suite)
  attestation_phase codec random text n_signers now = do
    compute_aggregated_sign x
    compute_encrypted_signature x random.rho
    compute_encrypted_bits x random.bits_seed
    compute_alpha x
    compute_phis x
    compute_blinds x n_signers random.blinds_seed
    compute_proofs x
    compute_beta x
    compute_hats x
    sigma ← construct_sigma x text
    package' ← prepare_tracer_package x codec sigma text random.attestation_nonce now
    lift (ok (sigma, package'))

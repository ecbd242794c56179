-- ===== src/Tracer/Tracing.antt =====
-- The checks of the Combiner's attestation, threshold decryption, and tracing.
use simulation_taps_tt.Base.{
  ℕ, suc, ◌+◌, Bool, some, List, [], ◌∷◌, Bytes, length, not, ltb, ◌==◌, if◌then◌else◌,
}
use simulation_taps_tt.Base.Outcome.{Outcome, ok, err, panic, expect, ok_or, guard, ◌>>=◌, ◌>>◌}
use simulation_taps_tt.Base.Action
use simulation_taps_tt.Base.Action.{Action, reads, modify, lift}
use simulation_taps_tt.Crypto.{
  Codec, SecurePackage, BroadcastPackage, Error, invalid_message, open_broadcast,
}
use simulation_taps_tt.Taps.{Statement}
use simulation_taps_tt.Dkg.{Dkg, TracerError, message, below_threshold, verification}
use simulation_taps_tt.Payloads.{TracerPackage}
use simulation_taps_tt.Tracer.State.{Tracer}
use simulation_taps_tt.Tracer.Peers.{PartialDecryptionPayload, seal_for_peer, open_from_peer}

module _ (x : Dkg) where
  abbrev pub StatementOf : Type 0
  StatementOf = Statement x.PK x.Cipher x.PublicKey

  unfoldable pub load_from_combiner :
      Codec (TracerPackage x.taps)
      → BroadcastPackage x.suite
      → ℕ
      → Action (Tracer x) Error (Unit {0})
  load_from_combiner codec broadcast_pkg now =
      Action.◌>>=◌ (reads (λ s. ok_or invalid_message s.combiner_keys)) λ keys.
        Action.◌>>=◌ (lift (open_broadcast x.suite codec keys.identity_pk broadcast_pkg now))
          λ config. modify (λ s. record s {
            t_cipher = some config.t_cipher;
            v0 = some config.v0;
            v_vec = some config.v_vec;
            proof = some config.proof;
            sigma = some config.sigma;
            message = some config.m;
          })

  -- `R` and the ciphertext are those of the signature.
  unfoldable pub statement : {E : Type 0} → Tracer x → x.Sigma → Outcome E StatementOf
  statement s sigma = do
    pk ← expect "PK not set in Tracer" s.pk
    t_cipher ← expect "T not set in Tracer" s.t_cipher
    m ← expect "Message not set in Tracer" s.message
    v0 ← expect "v0 not set in Tracer" s.v0
    v ← expect "v_vec not set in Tracer" s.v_vec
    ok (record {
      pk = pk;
      t_cipher = t_cipher;
      r_point = x.sigma_r sigma;
      m = m;
      ct = x.sigma_ct sigma;
      v0 = v0;
      v = v;
    })

  unfoldable pub challenge_c : {E : Type 0} → Tracer x → Outcome E x.Scalar
  unfolding statement
  challenge_c s = do
    sigma ← expect "Sigma not set in Tracer" s.sigma
    st ← statement s sigma
    ok (x.statement_c st)

  -- `.map_err(|e| format!(…))`
  abbrev wrap : {A : Type 0} → Outcome Error A → Outcome TracerError A
  wrap (ok a) = ok a
  wrap (err e) = err (verification e)
  wrap (panic p) = panic p

  unfoldable pub verify_sigma : Tracer x → Outcome TracerError Bool
  verify_sigma s = do
    sigma ← expect "Sigma not set in Tracer" s.sigma
    m ← expect "Message not set in Tracer" s.message
    pk ← expect "PK not set in Tracer" s.pk
    wrap (x.sigma_verify pk m sigma)

  unfoldable pub verify_proof : Tracer x → Outcome TracerError Bool
  unfolding statement
  verify_proof s = do
    proof ← expect "Proof not set in Tracer" s.proof
    sigma ← expect "Sigma not set in Tracer" s.sigma
    st ← statement s sigma
    wrap (x.proofs_verify proof sigma st)

  -- `DecryptionInput::from_public_keys` on the parts of the attestation.
  abbrev pub input_of : x.Sigma → List x.PublicKey → List x.PublicKey → x.DecryptionInput
  input_of sigma v0 v1 =
      x.decryption_input (x.c0 (x.sigma_ct sigma)) (x.c1 (x.sigma_ct sigma)) v0 v1

  unfoldable pub partial_decrypt : {E : Type 0} → Tracer x → Outcome E x.PartialDecryption
  partial_decrypt s = do
    sigma ← expect "Sigma not set in Tracer" s.sigma
    v0 ← expect "v0 not set in Tracer" s.v0
    v1 ← expect "v_vec not set in Tracer" s.v_vec
    share ← expect "DKG not finalized for this tracer" s.tracer_key_share
    ok (x.partial_decrypt share (input_of sigma v0 v1))

  unfoldable pub partial_for_peer :
      Codec (PartialDecryptionPayload x)
      → Tracer x
      → ℕ
      → x.PartialDecryption
      → Bytes
      → ℕ
      → Outcome Error (SecurePackage x.suite)
  partial_for_peer codec s recipient_id partial random now =
      seal_for_peer x codec s recipient_id (record { partial = partial }) random now

  unfoldable pub open_peer_partials :
      Codec (PartialDecryptionPayload x)
      → Tracer x
      → ℕ
      → List (ℕ × SecurePackage x.suite)
      → List x.PartialDecryption
  open_peer_partials codec s now [] = []
  open_peer_partials codec s now ((from_id, pkg) ∷ later) =
      let rest = open_peer_partials codec s now later in
      elim (open_from_peer x codec s from_id pkg now) [
        | ok p ↦ if x.tracer_index p.partial == from_id + 1 then p.partial ∷ rest else rest
        | err _ ↦ rest
        | panic _ ↦ rest
      ]

  -- The loop over the partial decryptions; a missing verification key ends it.
  unfoldable pub valid_partials :
      Tracer x
      → x.TracerKeyShare
      → x.DecryptionInput
      → List x.PartialDecryption
      → Outcome TracerError (List x.PartialDecryption)
  valid_partials s share input [] = ok []
  valid_partials s share input (partial ∷ later) = do
    expected_vk ← x.verification_key (x.share_qual share) s.dkg_broadcasts (x.tracer_index partial)
    rest ← valid_partials s share input later
    ok (if x.verify_partial_decryption partial input expected_vk then partial ∷ rest else rest)

  -- The loop over the decrypted bits, from number `i` on.
  unfoldable pub decode_bits : ℕ → List x.Gt → Outcome TracerError (List ℕ)
  decode_bits i [] = ok []
  decode_bits i (g_bit ∷ later) = do
    bit ← x.decode_bit g_bit i
    rest ← decode_bits (suc i) later
    ok (bit ∷ rest)

  -- `.enumerate().filter(|&(_, &b)| b == 1).map(|(i, _)| i)`, from number `i` on.
  unfoldable pub positions : ℕ → List ℕ → List ℕ
  positions i [] = []
  positions i (b ∷ bits) = let rest = positions (suc i) bits in if b == 1 then i ∷ rest else rest

  unfoldable pub combine_and_trace :
      Tracer x → List x.PartialDecryption → Outcome TracerError (List ℕ)
  unfolding statement
  combine_and_trace s partials = do
    sigma ← ok_or (message "Sigma not set in Tracer") s.sigma
    v0 ← ok_or (message "v0 not set in Tracer") s.v0
    v1 ← ok_or (message "v_vec not set in Tracer") s.v_vec
    share ← ok_or (message "DKG not finalized for this tracer") s.tracer_key_share
    te ← ok_or (message "t_e not set") s.te
    valid ← valid_partials s share (input_of sigma v0 v1) partials
    (g_z_prime, g_bits) ← x.combine_partial_decryptions (input_of sigma v0 v1) valid te
    bits ← decode_bits 0 g_bits
    pk ← ok_or (message "PK not set in Tracer") s.pk
    let quo = x.quorum_set pk bits
    st ← statement s sigma
    let g_z_expected = x.schnorr_signature (x.sigma_r sigma) quo (x.statement_c st)
    guard (x.gt_eq g_z_prime (x.from_public_key g_z_expected))
        (message "g^z from the decrypted quorum does not match the decrypted signature.")
    let quorum = positions 0 bits
    t ← ok_or (message "Threshold t not set in Tracer") s.t
    guard (not (ltb (length quorum) t)) (below_threshold (length quorum) t)
    ok quorum

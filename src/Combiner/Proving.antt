-- ===== src/Combiner/Proving.antt =====
-- The accountability proof, the final signature, and the packages that the Combiner sends.
use simulation_taps_tt.Base.{ℕ, some, map, Bytes}
use simulation_taps_tt.Base.Outcome.{ok, expect}
use simulation_taps_tt.Base.Action.{Action, reads, modify, lift, ◌>>=◌}
use simulation_taps_tt.Crypto.{Codec, BroadcastPackage, Error, sign_broadcast}
use simulation_taps_tt.Taps.{Taps, Statement}
use simulation_taps_tt.Payloads.{SignerPackage, TracerPackage}
use simulation_taps_tt.Combiner.State.{Combiner}

module _ (x : Taps) where
  -- The record of `statement`, from its parts.
  abbrev pub StatementOf : Type 0
  StatementOf = Statement x.PK x.Cipher x.PublicKey

  unfoldable pub statement : Action (Combiner x) Error StatementOf
  statement = do
    pk ← reads (λ s. expect "PK not set" s.pk)
    t_cipher ← reads (λ s. expect "T not set" s.t_cipher)
    r ← reads (λ s. expect "R not set" s.r_point)
    m ← reads (λ s. expect "Message not set" s.message)
    ct ← reads (λ s. expect "C not computed" s.c_cipher)
    v0 ← reads (λ s. expect "v0 not computed" s.v0)
    v ← reads (λ s. expect "v_vec not computed" s.v_vec)
    lift (ok (record { pk = pk; t_cipher = t_cipher; r_point = r; m = m; ct = ct; v0 = v0; v = v }))

  unfoldable pub compute_alpha : Action (Combiner x) Error (Unit {0})
  unfolding statement
  compute_alpha = do
    c ← reads (λ s. expect "Challenge c not computed yet" s.c)
    st ← statement
    modify (λ s. record s { alpha = some (x.statement_alpha st c) })

  unfoldable pub compute_beta : Action (Combiner x) Error (Unit {0})
  unfolding statement
  compute_beta = do
    alpha ← reads (λ s. expect "Alpha not computed yet" s.alpha)
    proofs ← reads (λ s. expect "Proofs not computed yet" s.proofs)
    st ← statement
    modify (λ s. record s { beta = some (x.statement_beta st alpha proofs) })

  unfoldable pub compute_phis : Action (Combiner x) Error (Unit {0})
  compute_phis = do
    alpha ← reads (λ s. expect "Alpha not set" s.alpha)
    quorum ← reads (λ s. expect "Quorum not set" s.quorum)
    gammas ← reads (λ s. expect "w_gamma (per-signer randomness) not computed yet" s.w_gamma)
    modify (λ s. record s { w_phi_i = some (x.phis_set alpha gammas quorum) })

  unfoldable pub compute_encrypted_bits : x.Seed → Action (Combiner x) Error (Unit {0})
  compute_encrypted_bits seed = do
    quorum ← reads (λ s. expect "Quorum not set" s.quorum)
    pk_e ← reads (λ s. expect "pk_e not set" s.pk_e)
    modify (λ s.
        let (gammas, ciphertexts) = x.encrypt_bits_threshold quorum pk_e seed in
        record s {
          w_gamma = some gammas;
          v0 = some (map x.c0 ciphertexts);
          v_vec = some (map x.c1 ciphertexts);
        })

  unfoldable pub compute_blinds : ℕ → x.Seed → Action (Combiner x) Error (Unit {0})
  compute_blinds n seed = modify (λ s. record s { blinds = some (x.blinds_set n seed) })

  unfoldable pub compute_proofs : Action (Combiner x) Error (Unit {0})
  compute_proofs = do
    blinds ← reads (λ s. expect "Blinds not computed" s.blinds)
    pk ← reads (λ s. expect "PK not set" s.pk)
    pk_e ← reads (λ s. expect "pk_e not set" s.pk_e)
    v_vec ← reads (λ s. expect "Encrypted Bits (v_vec) not computed" s.v_vec)
    c ← reads (λ s. expect "Challenge c not set" s.c)
    alpha ← reads (λ s. expect "Alpha not set" s.alpha)
    modify (λ s. record s { proofs = some (x.compute_proofs blinds pk pk_e v_vec c alpha) })

  unfoldable pub compute_hats : Action (Combiner x) Error (Unit {0})
  compute_hats = do
    z ← reads (λ s. expect "w_z (Signature) not set" s.w_z)
    rho ← reads (λ s. expect "w_rho not set" s.w_rho)
    gammas ← reads (λ s. expect "w_gamma not set" s.w_gamma)
    psi ← reads (λ s. expect "w_psi not set" s.w_psi)
    quorum ← reads (λ s. expect "Quorum not set" s.quorum)
    phis ← reads (λ s. expect "w_phi_i not set" s.w_phi_i)
    beta ← reads (λ s. expect "Beta (Challenge) not set" s.beta)
    blinds ← reads (λ s. expect "Blinds not computed" s.blinds)
    modify (λ s. record s {
      hats = some (x.hats_set beta (x.witnesses_set z rho gammas psi quorum phis) blinds);
    })

  unfoldable pub construct_pi : Action (Combiner x) Error x.Pi
  construct_pi = do
    beta ← reads (λ s. expect "Beta (Challenge) not set" s.beta)
    hats ← reads (λ s. expect "Hats (Responses) not computed" s.hats)
    lift (ok (x.make_pi beta hats))

  unfoldable pub construct_sigma : Bytes → Action (Combiner x) Error x.Sigma
  unfolding construct_pi
  construct_sigma message = do
    pi ← construct_pi
    taps_kp ← reads (λ s. expect "TAPS KeyPair not set" s.taps_kp)
    r ← reads (λ s. expect "Aggregated Nonce R not set" s.r_point)
    ct ← reads (λ s. expect "Encrypted Signature C not computed" s.c_cipher)
    lift (ok (x.sigma_sign taps_kp message r ct pi))

  -- The last two arguments of these are the random nonce and the clock.
  unfoldable pub sign_package :
      {A : Type 0} → Codec A → A → Bytes → ℕ → Action (Combiner x) Error (BroadcastPackage x.suite)
  sign_package codec payload nonce now =
      reads (λ s. sign_broadcast x.suite codec s.identity_kp payload nonce now)

  unfoldable pub prepare_signer_package :
      Codec (SignerPackage x) → Bytes → ℕ → Action (Combiner x) Error (BroadcastPackage x.suite)
  unfolding sign_package
  prepare_signer_package codec nonce now = do
    r ← reads (λ s. expect "R not set" s.r_point)
    c ← reads (λ s. expect "c not set" s.c)
    sign_package codec (record { r_point = r; c = c }) nonce now

  unfoldable pub prepare_tracer_package :
      Codec (TracerPackage x)
      → x.Sigma
      → Bytes
      → Bytes
      → ℕ
      → Action (Combiner x) Error (BroadcastPackage x.suite)
  unfolding sign_package
  prepare_tracer_package codec sigma m nonce now = do
    t_cipher ← reads (λ s. expect "T not set" s.t_cipher)
    proof ← reads (λ s. expect "Proofs not computed" s.proofs)
    v0 ← reads (λ s. expect "v0 not computed" s.v0)
    v ← reads (λ s. expect "v_vec not computed" s.v_vec)
    sign_package codec
        (record { t_cipher = t_cipher; v0 = v0; v_vec = v; proof = proof; sigma = sigma; m = m })
        nonce now

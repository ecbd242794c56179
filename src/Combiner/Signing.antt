-- ===== src/Combiner/Signing.antt =====
-- The signing rounds: nonce, threshold, challenge, signature.
use simulation_taps_tt.Base.{ℕ, zero, suc, ◌%◌, ◌^◌, some, List, [], ◌∷◌, ◌++◌, Bytes, replicate}
use simulation_taps_tt.Base.Map.{Map, lookup}
use simulation_taps_tt.Base.Outcome
use simulation_taps_tt.Base.Outcome.{Outcome, ok, expect, ok_or}
use simulation_taps_tt.Base.Action.{Action, reads, modify, lift, ◌>>=◌}
use simulation_taps_tt.Crypto.{Error, invalid_public_key, be_bytes}
use simulation_taps_tt.Taps.{Taps}
use simulation_taps_tt.Combiner.State.{Combiner}

-- The loop `for i in 0..n` over the entries of a map, from `i` with `left` rounds to go.
unfoldable pub gather : {A : Type 0} → Map A → ℕ → ℕ → Outcome Error (List A)
gather m i zero = ok []
gather m i (suc left) =
    Outcome.◌>>=◌ (ok_or invalid_public_key (lookup i m))
      λ a. Outcome.◌>>=◌ (gather m (suc i) left) λ rest. ok (a ∷ rest)

module _ (x : Taps) where
  unfoldable pub compute_aggregated_nonce : Action (Combiner x) Error (Unit {0})
  compute_aggregated_nonce = do
    quorum ← reads (λ s. expect "Quorum not set in Combiner" s.quorum)
    n ← reads (λ s. expect "Participant count (n) not set" s.n)
    ordered_commitments ← reads (λ s. gather s.commitments 0 n)
    r_val ← lift (x.aggregate_commitments ordered_commitments quorum)
    modify (λ s. record s { r_point = some r_val })

  -- The argument is what `Secret::create` draws.
  unfoldable pub encrypt_threshold : x.Secret → Action (Combiner x) Error (Unit {0})
  encrypt_threshold psi_secret = do
    t_val ← reads (λ s. expect "Threshold t not set" s.t)
    t_scalar ← lift (
        expect "Threshold scalar conversion failed"
          (x.scalar_from_be_bytes (replicate 24 0 ++ be_bytes 8 (t_val % 2 ^ 64))))
    modify (λ s. record s {
      w_psi = some psi_secret;
      t_cipher = some (x.encrypt_value psi_secret t_scalar);
    })

  unfoldable pub compute_parameters : Bytes → Action (Combiner x) Error (Unit {0})
  compute_parameters message = do
    pk ← reads (λ s. expect "PK not set" s.pk)
    t_cipher ← reads (λ s. expect "Cipher not set" s.t_cipher)
    r ← reads (λ s. expect "Aggregated Nonce R not computed yet" s.r_point)
    modify (λ s. record s {
      c = some (x.compute_challenge_c pk t_cipher r message);
      message = some message;
    })

  unfoldable pub compute_aggregated_sign : Action (Combiner x) Error (Unit {0})
  compute_aggregated_sign = do
    quorum ← reads (λ s. expect "Quorum not set in Combiner" s.quorum)
    n ← reads (λ s. expect "Participant count (n) not set" s.n)
    ordered_signs ← reads (λ s. gather s.sigmas 0 n)
    modify (λ s. record s { w_z = some (x.aggregate_signs ordered_signs quorum) })

  unfoldable pub compute_encrypted_signature : x.Secret → Action (Combiner x) Error (Unit {0})
  compute_encrypted_signature rho_secret = do
    z_struct ← reads (λ s. expect "w_z (Aggregated Signature) not computed yet" s.w_z)
    pk ← reads (λ s. expect "PK not set in Combiner" s.pk)
    modify (λ s. record s {
      w_rho = some rho_secret;
      c_cipher = some (x.encrypt rho_secret z_struct pk);
    })

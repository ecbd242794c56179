-- ===== src/Crypto/Freshness.antt =====
-- The clock in `verify_package`: a package is accepted in a window of time and outside it never.
use simulation_taps_tt.Base.{ℕ, ◌+◌, ◌≤◌, ◌≡◌, ◌↔◌, true, arith}
use simulation_taps_tt.Crypto.Primitives.{Suite}
use simulation_taps_tt.Crypto.Package.{SecurePackage, signed_buffer, verify_package}

module _ (c : Suite) where
  -- A package verifies exactly when its timestamp is not in the future, it is at most `max_age`
  -- seconds old, and its signature holds for the digest of (ciphertext, nonce, timestamp).
  pub verify_package_iff :
      (pk : c.PublicKey) (p : SecurePackage c) (max_age now : ℕ)
      → (verify_package c pk p max_age now ≡ true) ↔ (
          (p.timestamp ≤ now)
          × (now ≤ p.timestamp + max_age)
          × (c.verify_ecdsa
                (c.sha256 (signed_buffer c p.ciphertext p.nonce p.timestamp))
                p.signature
                pk
              ≡ true))
  unfolding verify_package
  verify_package_iff pk p max_age now = (λ h. ground arith, λ h. ground arith)

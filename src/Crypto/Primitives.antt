-- ===== src/Crypto/Primitives.antt =====
-- What src/crypto.rs calls of the crates secp256k1, sha2, aes-gcm and bincode, as parameters, and
-- the documented behaviour that the theorems rely on.
use simulation_taps_tt.Base.{ℕ, ◌≤◌, ◌≡◌, Bool, true, Option, some, Bytes, length}

pub record Suite : Type 1 where
  pub SecretKey : Type 0
  pub PublicKey : Type 0
  pub Signature : Type 0
  -- `generate_keypair` returns a secret key with this public key
  pub public_key : SecretKey → PublicKey
  -- `SharedSecret::new`
  pub shared_secret : PublicKey → SecretKey → Bytes
  pub sha256 : Bytes → Bytes
  -- `Aes256Gcm::encrypt` and `decrypt`: key, nonce, text
  pub aes_encrypt : Bytes → Bytes → Bytes → Option Bytes
  pub aes_decrypt : Bytes → Bytes → Bytes → Option Bytes
  -- the longest plaintext that the cipher takes
  pub max_plaintext : ℕ
  pub sign_ecdsa : Bytes → SecretKey → Signature
  pub verify_ecdsa : Bytes → Signature → PublicKey → Bool
  -- the compressed encoding of a point
  pub serialize : PublicKey → Bytes
  pub from_slice : Bytes → Option PublicKey

-- The documented behaviour of those crates.
pub record IsLawful (c : Suite) : Type 0 where
  -- Diffie-Hellman is symmetric
  pub shared_secret_comm :
      (a b : c.SecretKey) → c.shared_secret (c.public_key a) b ≡ c.shared_secret (c.public_key b) a
  pub verify-sign :
      (digest : Bytes) (sk : c.SecretKey)
      → c.verify_ecdsa digest (c.sign_ecdsa digest sk) (c.public_key sk) ≡ true
  -- under a 12-byte nonce a text of admissible length is encrypted, and decrypts to itself
  pub decrypt-encrypt :
      (key nonce plain : Bytes)
      → length nonce ≡ 12
      → length plain ≤ c.max_plaintext
      → (ct : Bytes) × (c.aes_encrypt key nonce plain ≡ some ct)
        × (c.aes_decrypt key nonce ct ≡ some plain)
  pub length-serialize : (pk : c.PublicKey) → length (c.serialize pk) ≡ 33
  pub from_slice-serialize : (pk : c.PublicKey) → c.from_slice (c.serialize pk) ≡ some pk

-- `bincode` at one payload type.
pub record Codec (A : Type 0) : Type 0 where
  pub serialize : A → Option Bytes
  pub deserialize : Bytes → Option A

-- What has been serialised is read back.
abbrev pub IsFaithful : {A : Type 0} → Codec A → Type 0
IsFaithful {A} codec =
    (a : A) (bytes : Bytes) → codec.serialize a ≡ some bytes → codec.deserialize bytes ≡ some a

-- ===== src/Taps.antt =====
-- The crate `taps_tt` (`../TAPS_TT`, not part of this repository), which implements the signature
-- scheme: its types and functions as parameters, over the primitives of `Crypto`. Where a function
-- draws at random, what it draws is an argument or comes from a seed.
use simulation_taps_tt.Base.{ℕ, ◌^◌, ◌<◌, ◌≡◌, Option, some, List, ◌++◌, Bytes, replicate}
use simulation_taps_tt.Base.Outcome.{Outcome}
use simulation_taps_tt.Crypto.{Suite, Error, be_bytes}

-- `Statement`: what the accountability proof is about.
pub record Statement (PK Cipher Point : Type 0) : Type 0 where
  pub pk : PK
  pub t_cipher : Cipher
  pub r_point : Point
  pub m : Bytes
  pub ct : Cipher
  pub v0 : List Point
  pub v : List Point

pub record Taps : Type 1 where
  pub suite : Suite
  pub open suite use *
  pub Scalar : Type 0
  pub Seed : Type 0
  -- key pairs and quorums
  pub KeyPair : Type 0
  pub keypair_public : KeyPair → suite.PublicKey
  pub Quorum : Type 0
  pub choose_quorum : ℕ → ℕ → List KeyPair → Seed → Quorum
  pub PK : Type 0
  pub from_public_keys : List suite.PublicKey → suite.PublicKey → suite.PublicKey → PK
  -- Schnorr signing
  pub Commit : Type 0
  pub Commitment : Type 0
  pub commitment_set : Commit → Commitment
  pub aggregate_commitments : List Commitment → Quorum → Outcome Error suite.PublicKey
  pub Sign : Type 0
  pub sign : Commit → KeyPair → Scalar → Sign
  pub aggregate_signs : List Sign → Quorum → Sign
  -- ElGamal
  pub Secret : Type 0
  pub Cipher : Type 0
  pub scalar_from_be_bytes : Bytes → Option Scalar
  pub encrypt_value : Secret → Scalar → Cipher
  pub encrypt : Secret → Sign → PK → Cipher
  pub c0 : Cipher → suite.PublicKey
  pub c1 : Cipher → suite.PublicKey
  pub encrypt_bits_threshold : Quorum → suite.PublicKey → Seed → List Secret × List Cipher
  -- the challenges
  pub compute_challenge_c : PK → Cipher → suite.PublicKey → Bytes → Scalar
  pub Proofs : Type 0
  pub statement_alpha : Statement PK Cipher suite.PublicKey → Scalar → Scalar
  pub statement_beta : Statement PK Cipher suite.PublicKey → Scalar → Proofs → Scalar
  pub statement_c : Statement PK Cipher suite.PublicKey → Scalar
  -- the accountability proof
  pub Phis : Type 0
  pub phis_set : Scalar → List Secret → Quorum → Phis
  pub Blinds : Type 0
  pub blinds_set : ℕ → Seed → Blinds
  pub compute_proofs :
      Blinds → PK → suite.PublicKey → List suite.PublicKey → Scalar → Scalar → Proofs
  pub Witnesses : Type 0
  pub witnesses_set : Sign → Secret → List Secret → Secret → Quorum → Phis → Witnesses
  pub Hats : Type 0
  pub hats_set : Scalar → Witnesses → Blinds → Hats
  pub Pi : Type 0
  pub make_pi : Scalar → Hats → Pi
  pub Sigma : Type 0
  pub sigma_sign : KeyPair → Bytes → suite.PublicKey → Cipher → Pi → Sigma
  -- points of the tracer group key
  pub Gt : Type 0
  pub identity : Gt
  pub add : Gt → Gt → Gt
  pub to_public_key : Gt → Option suite.PublicKey

-- A 64-bit number, padded to 32 bytes, is below the order of the group.
abbrev pub HasSmallScalars : Taps → Type 0
HasSmallScalars x =
    (n : ℕ)
    → n < 2 ^ 64
    → (s : x.Scalar) × (x.scalar_from_be_bytes (replicate 24 0 ++ be_bytes 8 n) ≡ some s)

-- The product of points is commutative, with a unit.
pub record IsAbelian (x : Taps) : Type 0 where
  pub add_comm : (a b : x.Gt) → x.add a b ≡ x.add b a
  pub add_assoc : (a b c : x.Gt) → x.add (x.add a b) c ≡ x.add a (x.add b c)
  pub identity-add : (a : x.Gt) → x.add x.identity a ≡ a

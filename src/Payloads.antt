-- ===== src/Payloads.antt =====
-- The payloads that the Combiner and the signers exchange, of src/combiner.rs and src/signer.rs,
-- and the one that a tracer sends to the Combiner.
use simulation_taps_tt.Base.{List, Bytes}
use simulation_taps_tt.Taps.{Taps}

-- `combiner::SignerPackage`
pub record SignerPackage (x : Taps) : Type 0 where
  pub r_point : x.PublicKey
  pub c : x.Scalar

-- `combiner::TracerPackage`
pub record TracerPackage (x : Taps) : Type 0 where
  pub t_cipher : x.Cipher
  pub v0 : List x.PublicKey
  pub v_vec : List x.PublicKey
  pub proof : x.Proofs
  pub sigma : x.Sigma
  pub m : Bytes

pub record TracerPublicKeyPackage (x : Taps) : Type 0 where
  pub pk : x.Gt

pub record CommitmentPackage (x : Taps) : Type 0 where
  pub commitment : x.Commitment

pub record SigmaPackage (x : Taps) : Type 0 where
  pub z : x.Sign

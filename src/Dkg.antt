-- ===== src/Dkg.antt =====
-- The parts of the crate `taps_tt` that the tracers use: distributed key generation (`dkg`), the
-- checks of a signature and its proof, and threshold decryption. Parameters, over `Taps`.
use simulation_taps_tt.Base.{ℕ, Bool, Option, List, Bytes, String}
use simulation_taps_tt.Base.Map.{Map}
use simulation_taps_tt.Base.Outcome.{Outcome}
use simulation_taps_tt.Crypto.{Error}
use simulation_taps_tt.Taps.{Taps, Statement}

-- The `String` errors of the tracer: its own messages, the errors that it wraps, and those that a
-- called function gives.
pub data TracerError : Type 0 where
  message : String → TracerError
  below_threshold : ℕ → ℕ → TracerError
  verification : Error → TracerError
  external : ℕ → TracerError

pub record Dkg : Type 1 where
  pub taps : Taps
  pub open taps use *
  -- key generation
  pub Fq : Type 0
  pub DkgBroadcast : Type 0
  pub broadcast_index : DkgBroadcast → ℕ
  pub DkgParticipant : Type 0
  pub participant_new : ℕ → ℕ → ℕ → taps.Seed → Option DkgParticipant
  pub participant_broadcast : DkgParticipant → DkgBroadcast
  pub share_for : DkgParticipant → ℕ → Fq
  pub verify_broadcast : DkgBroadcast → ℕ → Bool
  pub verify_share : DkgBroadcast → Fq → ℕ → Bool
  pub TracerKeyShare : Type 0
  pub participant_finalize :
      DkgParticipant → List ℕ → Map DkgBroadcast → Map Fq → Outcome TracerError TracerKeyShare
  pub share_pk : TracerKeyShare → taps.Gt
  pub share_qual : TracerKeyShare → List ℕ
  pub pk_e_as_public_key : TracerKeyShare → taps.PublicKey
  -- the Combiner's signature and proof
  pub sigma_r : taps.Sigma → taps.PublicKey
  pub sigma_ct : taps.Sigma → taps.Cipher
  pub sigma_verify : taps.PK → Bytes → taps.Sigma → Outcome Error Bool
  pub proofs_verify :
      taps.Proofs → taps.Sigma → Statement taps.PK taps.Cipher taps.PublicKey → Outcome Error Bool
  -- threshold decryption and tracing
  pub DecryptionInput : Type 0
  pub decryption_input :
      taps.PublicKey → taps.PublicKey → List taps.PublicKey → List taps.PublicKey → DecryptionInput
  pub PartialDecryption : Type 0
  pub tracer_index : PartialDecryption → ℕ
  pub partial_decrypt : TracerKeyShare → DecryptionInput → PartialDecryption
  pub VerificationKey : Type 0
  pub verification_key : List ℕ → Map DkgBroadcast → ℕ → Outcome TracerError VerificationKey
  pub verify_partial_decryption : PartialDecryption → DecryptionInput → VerificationKey → Bool
  pub combine_partial_decryptions :
      DecryptionInput → List PartialDecryption → ℕ → Outcome TracerError (taps.Gt × List taps.Gt)
  pub decode_bit : taps.Gt → ℕ → Outcome TracerError ℕ
  pub quorum_set : taps.PK → List ℕ → taps.Quorum
  pub schnorr_signature : taps.PublicKey → taps.Quorum → taps.Scalar → taps.PublicKey
  pub from_public_key : taps.PublicKey → taps.Gt
  pub gt_eq : taps.Gt → taps.Gt → Bool

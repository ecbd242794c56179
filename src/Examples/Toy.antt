-- ===== src/Examples/Toy.antt =====
-- Primitives, a signature scheme and a key generation over the natural numbers: they satisfy what
-- the theorems ask of the crates, with none of their secrecy.
use simulation_taps_tt.Base.{
  ℕ, suc, ◌+◌, ◌*◌, ◌≡◌, refl, true, ◌&&◌, not, Option, none, some, List, [], ◌∷◌, map, Bytes,
  length, replicate, take, eq_bytes, ◌==◌, arith,
}
use simulation_taps_tt.Base.Outcome.{ok}
use simulation_taps_tt.Crypto.{Suite, IsLawful, from_be}
use simulation_taps_tt.Taps.{Taps, HasSmallScalars, IsAbelian}
use simulation_taps_tt.Dkg.{Dkg}

eq_bytes_refl : (xs : Bytes) → eq_bytes xs xs ≡ true
eq_bytes_refl [] = refl
eq_bytes_refl (x ∷ xs) = ground (arith, eq_bytes_refl xs)

abbrev decode_point : Bytes → Option ℕ
decode_point [] = none
decode_point (pk ∷ _) = some pk

-- A signature is the key and the digest; encryption is the identity.
abbrev pub toy_suite : Suite
toy_suite = record {
  SecretKey = ℕ;
  PublicKey = ℕ;
  Signature = ℕ × Bytes;
  public_key = λ sk. sk;
  shared_secret = λ pk sk. (pk + sk) ∷ [];
  sha256 = λ bytes. bytes;
  aes_encrypt = λ key nonce plain. some plain;
  aes_decrypt = λ key nonce ct. some ct;
  max_plaintext = 1000;
  sign_ecdsa = λ digest sk. (sk, digest);
  verify_ecdsa = λ digest sig pk. (sig.0 == pk) && eq_bytes sig.1 digest;
  serialize = λ pk. pk ∷ replicate 32 0;
  from_slice = decode_point;
}

pub toy_suite-IsLawful : IsLawful toy_suite
toy_suite-IsLawful = record {
  shared_secret_comm = λ a b. ground arith;
  verify-sign = λ digest sk. ground (arith, eq_bytes_refl digest);
  decrypt-encrypt = λ key nonce plain _ _. (plain, refl, refl);
  length-serialize = λ pk. refl;
  from_slice-serialize = λ pk. refl;
}

abbrev pub sum : List ℕ → ℕ
sum [] = 0
sum (x ∷ xs) = x + sum xs

abbrev pub toy : Taps
toy = record {
  suite = toy_suite;
  Scalar = ℕ;
  Seed = ℕ;
  KeyPair = ℕ;
  keypair_public = λ kp. kp;
  Quorum = List ℕ;
  choose_quorum = λ n t keys seed. take t keys;
  PK = List ℕ;
  from_public_keys = λ pks pk_cs pk_e. pk_e ∷ pk_cs ∷ pks;
  Commit = ℕ;
  Commitment = ℕ;
  commitment_set = λ commit. commit;
  aggregate_commitments = λ comms q. ok (sum comms);
  Sign = ℕ;
  sign = λ commit kp c. commit + c * kp;
  aggregate_signs = λ signs q. sum signs;
  Secret = ℕ;
  Cipher = ℕ × ℕ;
  scalar_from_be_bytes = λ bytes. some (from_be bytes);
  encrypt_value = λ secret value. (secret, secret + value);
  encrypt = λ secret z pk. (secret, secret + z);
  c0 = λ cipher. cipher.0;
  c1 = λ cipher. cipher.1;
  encrypt_bits_threshold = λ q pk_e seed. (q, map (λ i. (seed, i)) q);
  compute_challenge_c = λ pk t_cipher r m. r;
  Proofs = ℕ;
  statement_alpha = λ st c. suc c;
  statement_beta = λ st alpha proofs. alpha + proofs;
  statement_c = λ st. st.r_point;
  Phis = ℕ;
  phis_set = λ alpha secrets q. alpha;
  Blinds = ℕ;
  blinds_set = λ n seed. n + seed;
  compute_proofs = λ blinds pk pk_e v c alpha. blinds + alpha;
  Witnesses = ℕ;
  witnesses_set = λ z rho secrets psi q phis. z;
  Hats = ℕ;
  hats_set = λ beta witnesses blinds. beta + witnesses;
  Pi = ℕ;
  make_pi = λ beta hats. hats;
  Sigma = ℕ × (ℕ × ℕ);
  sigma_sign = λ kp m r ct p. (r, ct);
  Gt = ℕ;
  identity = 0;
  add = λ a b. a + b;
  to_public_key = λ g. some g;
}

pub toy-HasSmallScalars : HasSmallScalars toy
toy-HasSmallScalars n h = (_, refl)

pub toy-IsAbelian : IsAbelian toy
toy-IsAbelian = record {
  add_comm = λ a b. omega arith;
  add_assoc = λ a b c. omega arith;
  identity-add = λ a. omega arith;
}

-- A broadcast is the index and the secret of its dealer, and a share is the secret and the
-- recipient, added.
abbrev pub toy_dkg : Dkg
toy_dkg = record {
  taps = toy;
  Fq = ℕ;
  DkgBroadcast = ℕ × ℕ;
  broadcast_index = λ b. b.0;
  DkgParticipant = ℕ × ℕ;
  participant_new = λ index te n3 seed. some (index, seed);
  participant_broadcast = λ p. p;
  share_for = λ p i. p.1 + i;
  verify_broadcast = λ b te. not (b.1 == 0);
  verify_share = λ b share i. share == b.1 + i;
  TracerKeyShare = List ℕ;
  participant_finalize = λ p qual broadcasts shares. ok qual;
  share_pk = λ share. sum share;
  share_qual = λ share. share;
  pk_e_as_public_key = λ share. sum share;
  sigma_r = λ sigma. sigma.0;
  sigma_ct = λ sigma. sigma.1;
  sigma_verify = λ pk m sigma. ok (not (sigma.0 == 0));
  proofs_verify = λ proofs sigma st. ok (sigma.0 == st.r_point);
  DecryptionInput = ℕ;
  decryption_input = λ c0 c1 v0 v1. length v0;
  PartialDecryption = ℕ;
  tracer_index = λ p. p;
  partial_decrypt = λ share input. sum share;
  VerificationKey = ℕ;
  verification_key = λ qual broadcasts i. ok i;
  verify_partial_decryption = λ p input vk. p == vk;
  combine_partial_decryptions = λ input ps te. ok (2 * sum ps, 1 ∷ 0 ∷ 1 ∷ []);
  decode_bit = λ g i. ok g;
  quorum_set = λ pk bits. bits;
  schnorr_signature = λ r q c. r + c;
  from_public_key = λ pk. pk;
  gt_eq = λ a b. a == b;
}

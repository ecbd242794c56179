-- ===== src/Lib.antt =====
-- Verification of the TAPS_TT simulation: a network of processes that runs a threshold signature
-- scheme with accountability and tracing. An Authority issues keys and a roster; `n` signers and a
-- Combiner sign a message under a threshold quorum; `n_3` tracers, who share a key that they
-- generate among themselves, check the Combiner's attestation and trace who signed.
--
-- How the parts interact. Every actor pins the Authority's two keys from a file (src/network.rs),
-- announces its own keys, and gets one package, encrypted and signed, with its configuration and its
-- peers' keys. From then on every package is checked under a key of that roster. The tracers run the
-- key generation over a mesh of links and report their public keys to the Combiner, which multiplies
-- them. The signers send commitments, the Combiner broadcasts a challenge, the signers send shares,
-- and the Combiner broadcasts an attestation. The tracers check it, exchange partial decryptions,
-- and name the quorum.
--
-- Files and sources:
--   Crypto (Package, Channel, BeBytes)  src/crypto.rs, and the steps of sealing and opening that
--     stand in the methods of all actors (`secure_package`, `sign_package`, `open_from_peer`, …)
--   Network/Defs         src/network.rs
--   Authority/Defs       src/authority.rs
--   Authority/Server     src/bin/authority.rs
--   Payloads             the payload structs of src/combiner.rs and src/signer.rs
--   Signer/Defs, Node    src/signer.rs, src/bin/signer.rs
--   Combiner/State, Intake, GroupKey, Signing, Proving   src/combiner.rs
--   Combiner/Node, Program                               src/bin/combiner.rs
--   Tracer/State, Peers, KeyGeneration, Tracing          src/tracer.rs
--   Tracer/Node, Program                                 src/bin/tracer.rs
--   Mesh/Defs            src/tracer_mesh.rs
--   Bench (Args, Assoc, Lines, Stats)          src/bench_config.rs, src/bench_stats.rs
--   Bench (Files, Runs, Program)                         src/bin/benchmark.rs
--   Bootstrap            the Authority's packages and the three methods `load_from_authority`
-- A function keeps its name; `Type::new` is new_type, `Signer::combiner_keys` is combiner_keys_of,
-- `TracerMesh::broadcast` is broadcast_all, and a loop or a step of a function that is a definition
-- of its own says so in a comment. The other files hold the shared helpers (Base), proofs, named for
-- what they prove, and concrete runs (Examples).
--
-- How it is modelled. A method on `&mut self` is an Action: it gives the state back however the call
-- ends, so that what was written before an error stays written. A call ends with ok, err or panic
-- (Base/Outcome); `expect`, `unwrap` and an index out of bounds are panics. A BTreeMap is a sorted
-- association list (Base/Map), and so is a HashMap, which the code only looks keys up in. What the
-- code draws at random, the clock and what a socket delivers are arguments. `as u32` and the 64-bit
-- product of the tracer threshold keep their wrap-around; other sums of counts are taken not to
-- overflow 64 bits.
--
-- Parameters: the crates secp256k1, sha2, aes-gcm and bincode (Crypto/Primitives), and the crate
-- taps_tt, which is not in the repository (Taps, Dkg). Their documented behaviour is in IsLawful,
-- IsFaithful, HasSmallScalars and IsAbelian, and the theorems that use it say so.
--
-- Loops. The loops over connections follow the list of connections that come in, and end with
-- `still_waiting` when the list does: that stands for a call that has not returned. The loops over
-- ids and the sixty attempts of `bind_with_retry` follow the number of rounds that are left. The only
-- definition that runs on fuel is `decimal` (Base/Numerals), which writes a number `n` out with fuel
-- `n + 1`; that is enough, since a number is greater than its quotient by ten.
--
-- Not modelled: printing and timing; the parsing of the arguments of the Authority and of the signer;
-- the loops that dial until a peer listens; the operating system under the benchmark, whose processes
-- and their output are arguments; and the integration tests. The floating-point numbers of the
-- statistics are a parameter (Floats).
pub mod Base
pub mod Crypto
pub mod Network
pub mod Taps
pub mod Authority
pub mod Payloads
pub mod Signer
pub mod Combiner
pub mod Dkg
pub mod Tracer
pub mod Bootstrap
pub mod Mesh
mod Examples
pub mod Bench

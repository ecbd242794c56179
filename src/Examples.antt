-- ===== src/Examples.antt =====
-- Concrete primitives and data for tests, and the theorems at them.
mod Toy
mod Wires
mod Payloads
mod Messages
mod Crypto
mod Network
mod Authority
mod Signer
mod Combiner
mod Tracer
mod Session
mod Signing
mod Bench

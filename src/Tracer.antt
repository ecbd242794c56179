-- ===== src/Tracer.antt =====
-- src/tracer.rs and src/bin/tracer.rs: one of the parties that can trace a signature.
mod State
mod Peers
mod KeyGeneration
mod Tracing
mod Node
pub mod Program
pub mod Qualified
pub mod Delivery
pub mod Agreement
pub mod Robust
pub mod Session
pub mod Keyed
pub mod Generated
pub mod Attested
pub mod Run
pub mod Bits
pub mod Sifted
pub mod Traced
pub mod Verified
pub mod Sources
unfoldable pub use State.*
unfoldable pub use Peers.*
unfoldable pub use KeyGeneration.*
unfoldable pub use Node.*
unfoldable pub use Tracing.*

-- ===== src/Signer.antt =====
-- src/signer.rs and src/bin/signer.rs: a participant of the signing quorum.
mod Defs
mod Node
pub mod Rounds
pub mod Session
unfoldable pub use Defs.*
unfoldable pub use Node.*

-- ===== src/Network.antt =====
-- src/network.rs: the trust anchor file, the messages and their frames, and the listener.
mod Defs
pub mod Anchor
pub mod Frames
pub mod Retry
unfoldable pub use Defs.*

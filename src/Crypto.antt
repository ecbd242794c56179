-- ===== src/Crypto.antt =====
-- src/crypto.rs: packages, their signatures and encryption, and what every actor does to seal and
-- to open one. The curve, the hash and the cipher are parameters (`Suite`).
mod Primitives
mod BeBytes
mod Package
mod Channel
pub mod NoPanic
pub mod Freshness
pub mod RoundTrip
pub mod Boundary
unfoldable pub use Primitives.*
unfoldable pub use BeBytes.*
unfoldable pub use Package.*
unfoldable pub use Channel.*

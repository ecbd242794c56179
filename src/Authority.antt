-- ===== src/Authority.antt =====
-- src/authority.rs and src/bin/authority.rs: the setup server.
mod Defs
mod Server
pub mod Thresholds
pub mod Registration
unfoldable pub use Defs.*
unfoldable pub use Server.*

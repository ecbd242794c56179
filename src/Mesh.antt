-- ===== src/Mesh.antt =====
-- src/tracer_mesh.rs: the links between the tracers, and the rounds over them.
mod Defs
pub mod Links
pub mod NoPanic
pub mod Delivered
unfoldable pub use Defs.*

-- ===== src/Combiner.antt =====
-- src/combiner.rs and src/bin/combiner.rs: the hub of the signing protocol.
mod State
mod Intake
mod GroupKey
mod Signing
mod Proving
mod Node
pub mod Program
pub mod Loops
pub mod Provenance
pub mod Authenticity
pub mod Rounds
pub mod Shelf
pub mod Frames
pub mod Phases
pub mod Accounts
pub mod Run
pub mod Deliveries
pub mod Completion
pub mod Steady
pub mod NoPanic
pub mod Calm
pub mod RunNoPanic
pub mod Gathering
pub mod KeyProduct
pub mod Pipeline
pub mod Connections
pub mod Returning
pub mod GroupKeyPhase
unfoldable pub use State.*
unfoldable pub use Intake.*
unfoldable pub use GroupKey.*
unfoldable pub use Signing.*
unfoldable pub use Node.*
unfoldable pub use Proving.*

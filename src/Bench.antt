-- ===== src/Bench.antt =====
-- src/bench_config.rs, src/bench_stats.rs and src/bin/benchmark.rs: the arguments of the benchmark,
-- its statistics, and the program that runs it.
mod Args
mod Assoc
mod Lines
mod Stats
mod Files
mod Runs
mod Program
pub mod Collection
pub mod Made
pub mod Summaries
pub mod Parsing
pub mod Order
pub mod Consistency
pub mod Measurements
pub mod Index
pub mod Output
pub mod Waiting
pub mod RawRows
pub mod RunLog
pub mod Report
unfoldable pub use Args.*
unfoldable pub use Assoc.*
unfoldable pub use Lines.*
unfoldable pub use Stats.*
unfoldable pub use Files.*
unfoldable pub use Runs.*
unfoldable pub use Program.*

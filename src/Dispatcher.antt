-- ===== src/Dispatcher.antt =====
-- lib/dispatcher.cc: the singleton that the programs enqueue to.
pub mod Defs
pub mod Modes
mod Tests
unfoldable pub use Defs.*

-- ===== src/EventDispatcher.antt =====
-- lib/event_dispatcher.cc
mod Defs
mod Counts
pub mod Invariant
mod Tests
pub mod Order
pub mod Shutdown
unfoldable pub use Defs.*

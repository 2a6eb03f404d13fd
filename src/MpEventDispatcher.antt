-- ===== src/MpEventDispatcher.antt =====
-- lib/mp_event_dispatcher.cc: several event dispatchers, and the routing of task groups to them.
mod Defs
pub mod Groups
pub mod Table
pub mod Hashed
mod Tests
unfoldable pub use Defs.*

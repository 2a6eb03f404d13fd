-- ===== src/DelayedTask.antt =====
-- lib/delayed_task.cc and lib/inc/delayed_task.h: a task that a timer hands to the dispatcher.
pub mod Defs
pub mod Once
mod Tests
unfoldable pub use Defs.*

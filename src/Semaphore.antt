-- ===== src/Semaphore.antt =====
-- lib/inc/lock.h: the semaphore that allows a negative initial value.
pub mod Defs
pub mod Balance
mod Tests
unfoldable pub use Defs.*

-- ===== src/FastFifo.antt =====
-- webserver/fast_fifo.h: a first-in first-out queue as a doubly linked list with a sentinel.
mod Defs
pub mod Spec
mod Chain
pub mod Represents
mod Pushing
mod Removing
pub mod Refines
pub mod Destroy
mod Tests
unfoldable pub use Defs.*

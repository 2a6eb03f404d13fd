-- ===== src/Cache.antt =====
-- webserver/cache.h and webserver/cache.cc: the reference-counted cache.
mod Defs
pub mod Slots
pub mod Calls
pub mod Protocol
pub mod Cancelled
pub mod Hash
pub mod FreeList
pub mod Kept
pub mod Moves
pub mod Evict
pub mod Preserves
pub mod Uses
pub mod Destroy
pub mod Shrinks
pub mod Content
mod Tests
mod UsesTests
unfoldable pub use Defs.*

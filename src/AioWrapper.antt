-- ===== src/AioWrapper.antt =====
-- lib/aio_wrapper.cc and lib/inc/aio_wrapper.h: asynchronous reads and writes that report to callbacks.
pub mod Defs
pub mod Jobs
mod Tests
unfoldable pub use Defs.*

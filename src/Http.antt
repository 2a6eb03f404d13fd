-- ===== src/Http.antt =====
-- webserver/svr_http.h and webserver/svr_http.cc: one connection of the web server.
pub mod Text
pub mod Package
pub mod Final
pub mod Parse
pub mod Serve
pub mod Steps
pub mod Chain
pub mod Serial
pub mod Stream
pub mod Keys
pub mod Ask
pub mod Requests
pub mod Lines
pub mod RoundTrip
pub mod Status
mod Tests
mod AskTests

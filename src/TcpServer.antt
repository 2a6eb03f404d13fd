-- ===== src/TcpServer.antt =====
-- webserver/svr_tcp_ip.h and webserver/svr_tcp_ip.cc: the server's connections.
pub mod Defs
pub mod Pool
pub mod Main
pub mod Program
mod Tests
unfoldable pub use Defs.*

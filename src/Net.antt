-- ===== src/Net.antt =====
-- src/net and include/net: the reactor's parts.
pub mod Buffer
pub mod Connection
pub mod ThreadPool
pub mod Channel
pub mod EventLoop
pub mod Poller
pub mod Setup
pub mod TcpServer

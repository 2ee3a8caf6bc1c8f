-- ===== src/Rpc.antt =====
-- src/rpc, include/rpc and proto/rpc.proto: calls and their dispatch.
pub mod Messages
pub mod Controller
pub mod Server
pub mod Channel
pub mod EndToEnd
pub mod Session
pub mod Proxy

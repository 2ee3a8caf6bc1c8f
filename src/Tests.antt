-- ===== src/Tests.antt =====
-- Runs of the models at concrete inputs, and the theorems applied to them.
mod Net
mod Codec
mod Rpc
mod Connection
mod ThreadPool
mod Registry
mod EventLoop
mod ServiceRegistry
mod TcpServer
mod Socket
mod Session
mod Reader
mod Threads
mod Poller
mod Running
mod Remote
mod RemoteRegistry

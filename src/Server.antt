-- ===== src/Server.antt =====
-- Server/: the library that carries messages between sockets and queues.
pub mod Queue
pub mod Array
pub mod Mutex
pub mod SyncArray
pub mod SyncQueue
pub mod Clients
pub mod LifeCycle
pub mod Wrapper
pub mod Memory
pub mod Receive
pub mod Listen
pub mod Send

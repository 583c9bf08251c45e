-- ===== src/Tcp.antt =====
-- tcp/: the Raft server on sockets. The children hold the bytes and the keys, the server's state,
-- and the handlers of its threads.
pub mod Requests
pub mod Bytes
pub mod Keys
pub mod Connect
pub mod State
pub mod Tools
pub mod Jobs
pub mod Sending
pub mod Roles
pub mod Exchange
pub mod Members
pub mod Receiving
pub mod Workers
pub mod Connections
pub mod Asking
pub mod Joining
pub mod Threads
pub mod Selecting
pub mod Stopping
pub mod Registry
pub mod Signals
pub mod LogFiles
pub mod Client

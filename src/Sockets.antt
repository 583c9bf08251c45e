-- ===== src/Sockets.antt =====
-- common/: the sockets of the repository, on the calls of the operating system.
pub mod Stream
pub mod Connecting
pub mod Device
pub mod Listener
pub mod Addresses
pub mod Nonblocking

-- ===== src/Server.antt =====
-- raft_server.cpp: one server of the cluster. The children hold the state, the handlers by topic,
-- and what is proved of them.
pub mod State
pub mod Voting
pub mod Election
pub mod Applying
pub mod Appending
pub mod Replies
pub mod Members
pub mod Periodic

-- ===== src/Raft.antt =====
-- src/raft1: the Raft peer, its elections, and what a run of a peer can reach.
pub mod Peer
pub mod Votes
pub mod Quorums
pub mod Elections
pub mod Heartbeats
pub mod Rfsrv
mod Tests

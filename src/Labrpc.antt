-- ===== src/Labrpc.antt =====
-- src/labrpc: the simulated network and its servers.
pub mod Network
pub mod Process
pub mod Server
mod Tests

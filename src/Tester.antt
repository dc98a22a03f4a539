-- ===== src/Tester.antt =====
-- src/tester1: the persister of a server, the ends of the clients in the simulated network, and the
-- partitions of a group of servers.
pub mod Persister
pub mod Annotation
pub mod Framework
pub mod Clnts
pub mod Group
pub mod Server
pub mod ServerGrp
mod Tests

-- ===== src/Kvsrv.antt =====
-- src/kvsrv1: the key/value server with versioned puts, its clerk, and the lock built on them.
pub mod Rpc
pub mod Server
pub mod Registers
pub mod Clerk
pub mod Lock
mod Tests

-- ===== src/Mr.antt =====
-- src/mr: the MapReduce coordinator and its workers.
pub mod Coordinator
pub mod Worker
pub mod Sequential
mod Tests

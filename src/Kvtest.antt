-- ===== src/Kvtest.antt =====
-- src/kvtest1/kvtest.go: the clients and the checks of the tests of the key/value server.
pub mod Clients
pub mod Moves
pub mod Puts
pub mod Runs
pub mod Prompt
pub mod Checks
pub mod Appends
pub mod Porcupine
pub mod AtLeastOnce
mod Tests

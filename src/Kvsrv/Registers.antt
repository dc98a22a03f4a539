-- ===== src/Kvsrv/Registers.antt =====
-- What src/kvsrv1/server.go promises: one versioned register for each key, which a put changes by
-- compare-and-set. It is written without the server's map, as the specification of the handlers.
pub mod Defs
pub mod Refines
pub mod Sequence
unfoldable pub use Defs.*
unfoldable pub use Refines.*
unfoldable pub use Sequence.*

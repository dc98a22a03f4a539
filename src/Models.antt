-- ===== src/Models.antt =====
-- src/models1/kv.go: the register model that the linearizability checker runs, and what it makes
-- of the replies of src/kvsrv1/server.go.
pub mod Kv
pub mod Legal
pub mod History
mod Tests
unfoldable pub use Kv.*
unfoldable pub use Legal.*
unfoldable pub use History.*

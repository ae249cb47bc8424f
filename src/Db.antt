-- ===== src/Db.antt =====
-- agent-service/app/core/db.py: the store, its reads and its writes.
mod Store
mod Writes
mod Reads
pub mod History
pub mod Lookup
pub mod Log
pub mod Once
pub mod Ids
unfoldable pub use Store.*
unfoldable pub use Writes.*
unfoldable pub use Reads.*

-- ===== src/Api.antt =====
-- agent-service/app/api/incidents.py: the decision and resolution endpoints, and those that read.
mod Decide
mod Resolve
mod Reads
pub mod Decisions
pub mod Resolutions
pub mod Scope
unfoldable pub use Decide.*
unfoldable pub use Resolve.*
unfoldable pub use Reads.*

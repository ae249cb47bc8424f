-- ===== src/Mapping.antt =====
-- agent-service/app/agents/action/mapping.py: from the approved recommendation to typed CMMS
-- operations.
mod Classify
mod Operations
pub mod Accounting
unfoldable pub use Classify.*
unfoldable pub use Operations.*

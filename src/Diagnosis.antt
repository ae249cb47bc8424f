-- ===== src/Diagnosis.antt =====
-- The Root-Cause Agent, agent-service/app/agents/root_cause/agent.py: `Citations` has the check of the
-- model's points, `Diagnose` the two attempts and the write, `Grounded` and `Recorded` what reaches the record.
mod Citations
mod Diagnose
mod Waits
pub mod Grounded
pub mod Recorded
pub mod Settles
pub mod InFlight
unfoldable pub use Citations.*
unfoldable pub use Waits.*
unfoldable pub use Diagnose.*

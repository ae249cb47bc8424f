-- ===== src/Risk.antt =====
-- agent-service/app/agents/risk/agent.py: deterministic scoring and the HITL level.
mod Config
mod Score
mod Consequences
pub mod Level
pub mod Worst
unfoldable pub use Config.*
unfoldable pub use Score.*
unfoldable pub use Consequences.*

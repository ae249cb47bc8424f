-- ===== src/Action.antt =====
-- agent-service/app/agents/action/agent.py: the only agent that writes to an external system.
mod Execute
mod Handle
mod Resolutions
mod Deliver
pub mod Safety
pub mod Polling
unfoldable pub use Execute.*
unfoldable pub use Handle.*
unfoldable pub use Resolutions.*
unfoldable pub use Deliver.*

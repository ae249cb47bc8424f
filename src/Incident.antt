-- ===== src/Incident.antt =====
-- The data model of agent-service/app/core/db.py: the rows of the tables that the agents share.
-- `Words` has the twelve statuses, `Rows` the rows, and `Transitions` the legal moves
-- (VALID_TRANSITIONS in agent-service/app/agents/orchestrator/agent.py).
mod Words
mod Rows
pub mod Transitions
unfoldable pub use Words.*
pub use Rows.*

-- ===== src/Knowledge.antt =====
-- agent-service/app/agents/knowledge/agent.py: the Knowledge Agent, with what it reads of
-- agent-service/app/core/db.py. `Similar` is the match against past incidents, `Ranking` what it
-- selects, `Collect` the handler and `Attached` what the handler leaves.
mod Similar
mod Collect
pub mod Ranking
pub mod Attached
unfoldable pub use Similar.*
unfoldable pub use Collect.*

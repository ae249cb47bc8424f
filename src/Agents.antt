-- ===== src/Agents.antt =====
-- The agents that score and recommend, and the orchestrator that drives them:
-- agent-service/app/agents/risk/agent.py, agents/recommendation/agent.py and
-- agents/orchestrator/agent.py. What the language model answers is a parameter.
mod Assess
mod Planner
mod Recommend
mod Parse
mod Orchestrate
pub mod Gate
pub mod Rounds
pub mod Routing
pub mod Pipeline
pub mod Priorities
unfoldable pub use Assess.*
unfoldable pub use Planner.*
unfoldable pub use Recommend.*
unfoldable pub use Parse.*
unfoldable pub use Orchestrate.*

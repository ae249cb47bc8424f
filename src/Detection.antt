-- ===== src/Detection.antt =====
-- The Detection Agent, agent-service/app/agents/detection. `Scoring` and `Correlate` are scoring.py, the
-- rest is agent.py: `Persist` writes incidents, `Agent` has the state, `Stream` the consumption of readings.
-- `Grouping`, `Chains`, `Reports` and `Coverage` are about the correlation, `Single` and `Opens` about the
-- incidents of one equipment, `Kept`, `Steady` and `Noticed` about the stream.
mod Scoring
mod Correlate
mod Persist
mod Agent
mod Stream
pub mod Grouping
pub mod Chains
pub mod Reports
pub mod Single
pub mod Kept
pub mod Steady
pub mod Opens
pub mod Noticed
pub mod Coverage
unfoldable pub use Scoring.*
unfoldable pub use Correlate.*
unfoldable pub use Persist.*
unfoldable pub use Agent.*
unfoldable pub use Stream.*

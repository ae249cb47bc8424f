-- ===== src/Llm.antt =====
-- The model client of offline runs, agent-service/app/core/llm_client.py: `Client` and `Analysis` are
-- `FakeScriptedLLMClient` with the texts it writes, `Offline` is about plans made with it and
-- `Cited` about the evidence of an analysis.
mod Analysis
mod Client
pub mod Offline
pub mod Cited
unfoldable pub use Analysis.*
unfoldable pub use Client.*

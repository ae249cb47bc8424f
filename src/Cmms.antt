-- ===== src/Cmms.antt =====
-- agent-service/app/core/cmms_client.py: the HTTP client of the ERP/CMMS, the only module that writes
-- to an external system. The server at the other end is a parameter.
mod Messages
mod Client
pub mod Retry
unfoldable pub use Messages.*
unfoldable pub use Client.*

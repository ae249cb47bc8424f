-- ===== src/Security.antt =====
-- agent-service/app/core/security.py: the caller of an API request, and the shared RBAC policy.
mod Policy
mod Principals
mod Guards
pub mod Tokens
pub mod Headers
unfoldable pub use Policy.*
unfoldable pub use Principals.*
unfoldable pub use Guards.*

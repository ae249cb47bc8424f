-- ===== src/Oidc.antt =====
-- oidc-provider/app: the local identity provider. `Users` and `Passwords` are users.py, `Codes` the
-- store of authorization codes, `Issue` the tokens and `Serve` the endpoints of main.py. The proofs:
-- `Redeem` (a code is good once), `WellFormed` (what the store holds), `SignIn` (the whole sign-in, up
-- to the agent service's check of the token).
mod Users
mod Passwords
mod Codes
mod Issue
mod Serve
pub mod Stored
pub mod Redeem
pub mod History
pub mod Completed
pub mod SignIn
pub mod Bearer
pub mod Apart
unfoldable pub use Users.*
unfoldable pub use Passwords.*
unfoldable pub use Codes.*
unfoldable pub use Issue.*
unfoldable pub use Serve.*

-- ===== src/Tests.antt =====
-- Runs on small inputs, and the theorems at them.
mod Samples
mod Store
mod Scoring
mod Executing
mod Deciding
mod Noticing
mod Signing
mod SigningIn
mod Retrieving
mod Asking
mod Detecting
mod Ordering
mod Piping
mod Diagnosing

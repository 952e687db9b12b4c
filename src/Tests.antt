-- ===== src/Tests.antt =====
-- The theorems at concrete inputs.
pub mod Fixtures
pub mod Service
pub mod Registration
pub mod Lifecycle
pub mod Web
pub mod Client
pub mod Certificate
pub mod Server
pub mod Callers
pub mod System
pub mod Revocation
pub mod Commands
pub mod Wire
pub mod Codec
pub mod Connected
pub mod Enrolled
pub mod Faults
pub mod Locked
pub mod Runs
pub mod Overlap

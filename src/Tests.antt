-- ===== src/Tests.antt =====
-- The theorems at concrete inputs.
pub mod Data
mod Limits
mod Accounts
mod Work
mod Artifacts
mod Serving
mod Keys

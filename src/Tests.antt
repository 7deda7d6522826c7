-- ===== src/Tests.antt =====
-- The theorems of the other modules, applied to a small bdk_wallet of concrete functions.
pub mod Samples
pub mod Builders
pub mod Sessions
mod Descriptors
mod Exports
mod Values
pub mod Records
mod Esplora
mod Programs
mod Failures
mod Replays

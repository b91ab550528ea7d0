-- ===== src/Tests.antt =====
-- The theorems at concrete inputs.
pub mod Inputs
pub mod Consumer
pub mod Sync
pub mod Storage
pub mod Lifecycle
pub mod Pulling
pub mod Logging
pub mod Subscriptions

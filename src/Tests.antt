-- ===== src/Tests.antt =====
-- Runs of the model on concrete members and messages.
pub mod Data
pub mod Runs
pub mod Receiving
pub mod Sending
pub mod Reporting
pub mod Groups
pub mod Syncing
pub mod Envelopes
pub mod Allocating

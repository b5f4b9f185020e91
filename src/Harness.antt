-- ===== src/Harness.antt =====
-- The regression harness of dashboard/apps/web/regression/core.
pub mod Errors
pub mod Lease
pub mod Journal
pub mod License
pub mod Blocking
pub mod Recovery
pub mod Gateway
pub mod Teardown
pub mod Heartbeat
pub mod Progress
pub mod Poll
pub mod Sharing
pub mod OwnedKey
pub mod OwnedModel
pub mod ApplicationModel
pub mod OwnedIdentity
pub mod Tests

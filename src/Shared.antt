-- ===== src/Shared.antt =====
-- The shared dashboard logic, dashboard/packages/core/src.
pub mod Blocked
pub mod ModelName
pub mod Phase
pub mod Access
pub mod Modules
pub mod Catalogue
pub mod Drafts
pub mod Tests

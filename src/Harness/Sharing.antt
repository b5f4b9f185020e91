-- ===== src/Harness/Sharing.antt =====
-- Borrowed GPU sharing settings, dashboard/apps/web/regression/core/borrowed-sharing.ts: a setting
-- of the appliance that a run changes and gives back. Spec has the JSON of a setting, Methods the
-- class BorrowedSharing as actions on its data and the world of its ports.
pub mod Spec
pub mod Same
pub mod Entry
pub mod Methods
pub mod Borrow
pub mod Wait
pub mod Restore
pub mod Keeps
pub mod Restored
pub mod GivenBack
pub mod Settled
pub mod Tests

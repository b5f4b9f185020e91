-- ===== src/Harness/Journal.antt =====
-- The resource journal, dashboard/apps/web/regression/core/journal.ts: which resources a run asked
-- for, owns, has removed or could not remove. A method is an action on the journal's data and the
-- world of its ports. `persist` is one write of the data; the writes of concurrent callers are
-- queued in the source, and here the calls come one after the other.
pub mod Entry
pub mod Methods
pub mod Valid
pub mod Keeps
pub mod Cleanup
pub mod Run
pub mod Tests

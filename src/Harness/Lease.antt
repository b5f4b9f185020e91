-- ===== src/Harness/Lease.antt =====
-- The lab lease, dashboard/apps/web/regression/core/lease.ts. The object's fields are the record
-- LabLease; the store, the clock, the private receipt file and the Date functions are parameters.
-- A method is an action on the object and the world that its ports act on. `exclusive` queues the
-- calls on one object, so a run of the object is a sequence of whole methods.
pub mod Data
pub mod Holder
pub mod Ports
pub mod Checks
pub mod Methods
pub mod Window
pub mod Fence
pub mod Outcome
pub mod Tests

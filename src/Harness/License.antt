-- ===== src/Harness/License.antt =====
-- The borrowed license, dashboard/apps/web/regression/core/license-transaction.ts: a test replaces
-- the appliance's license document, and restores exactly the one that it found. SHA-256 is a
-- parameter, and so are the four ports. The other data of the Secret is read through its canonical
-- text alone, and stands for it here.
pub mod Transaction
pub mod Receipts
pub mod Restored
pub mod Writes
pub mod Reliable
pub mod Tests

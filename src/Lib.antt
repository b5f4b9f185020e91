-- ===== src/Lib.antt =====
-- The regression harness and the shared dashboard logic of the AI appliance.
--
-- The harness (dashboard/apps/web/regression/core) drives live tests against one registered
-- appliance. A run takes the lab lease, journals every resource that it is about to create, borrows
-- settings and the license under a transaction, and gives everything back at its end. Each of these
-- is an object with private state whose methods call the API, the clock and private files.
--
-- A method is an action: a function from the object and the outside world to a result or an error,
-- and to the object and the world that it leaves. What is not the repository's code (the API, the
-- clock, SHA-256, Date, the file system) is a record of parameters on an arbitrary type of worlds, so
-- the theorems hold for every behaviour of those calls, failures included.
--
-- Prelude: tests, lists, texts, actions, and properties that actions keep.
-- Harness/Errors: regression/core/errors.ts. ReasonCode and Stage are the two vocabularies.
-- Harness/Lease: regression/core/lease.ts. Data holds the object and the Lease resource, Holder
--   leaseHolderReason, Checks validate and assertHeldInternal, Methods the acquisition and the
--   heartbeats, Window the offline window, the release and the queue of calls; Fence and Outcome
--   hold the proofs.
-- Harness/Journal: regression/core/journal.ts. Entry holds the entries and the checks of resume,
--   Methods the methods on one entry, Cleanup the cleanup loop, Run the sequences of calls.
-- Harness/License: regression/core/license-transaction.ts. Transaction holds the object, Receipts,
--   Restored, Writes and Reliable the proofs.
-- Harness/Blocking: regression/core/blocking.ts. Blocking holds withBlockedCauses, Counts
--   blockedCounts, Executions its count of executions, Cause inheritRecoveryCause, Public what a
--   cause may disclose.
-- Harness/Recovery, Harness/Gateway: lock-recovery.ts and gateway-stability.ts.
-- Harness/Teardown, Harness/Heartbeat: withCleanup and HeartbeatLoop of run-lifecycle.ts.
-- Shared: dashboard/packages/core/src. Blocked is regression-blocking.ts; ModelName, Phase, Access,
--   Modules and Catalogue are parts of index.ts, and Drafts is localModelChanges and
--   a part of localModelCreatePayload of local-model-configuration.ts.
-- Harness/Progress: the class KubernetesProgress of regression/core/kubernetes-progress.ts.
--   Snapshot has what it reports, Consistent its invariant, Bounds the percentage.
-- Harness/Poll: regression/core/poll.ts; Ends shows that one round for each tick of the timeout,
--   and one more, are fuel enough.
-- Harness/Sharing: regression/core/borrowed-sharing.ts. Spec and Entry hold the JSON, Methods,
--   Borrow and Restore the class BorrowedSharing, Wait its call of poll; Same, Keeps, Restored,
--   GivenBack and Settled lead to what restore guarantees.
-- Harness/OwnedKey: regression/core/owned-key.ts, with the adapter that fills the ports of the
--   journal; Cleanup composes the two.
-- Harness/OwnedModel: regression/core/owned-model.ts. Fence has the checks on a request, Methods
--   the methods, Pods the functions on pods; Advances and Unowned hold the proofs.
-- Harness/OwnedIdentity: regression/core/owned-identity.ts.
-- Harness/ApplicationModel: regression/core/application-model.ts, and catalogFixtures of
--   regression/core/input-preparation.ts in Catalogue.
--
-- Bounds: the loop of poll.ts runs on fuel, one round for each tick of its timeout and one more;
-- the retries of a rejected write are counted down; no other loop needs fuel. The poll in the
-- return of a borrowed setting has 600001 rounds, enough where a sleep moves its clock on. The
-- cleanup loop of the journal goes through the positions of its entries from the last, as the source
-- does over a reversed copy. Times and durations are natural numbers of milliseconds and seconds; a
-- date that does not parse is an absent number. The calls on one object run one after the other, as
-- its queue makes them.
--
-- Not modelled: the web pages, the test scenarios, the CLI's prompts and output, the Python
-- services, the host image and the cluster manifests, the JSON text of private files, and the
-- diagnostic records that only a report reads.
pub mod Prelude
pub mod Harness
pub mod Shared

-- ===== src/Harness/Journal/Cleanup.antt =====
-- `cleanup` and `verifyCleanup` of ResourceJournal (journal.ts).
pub mod Keeping
pub mod Safety
pub mod Settled
use aippliance_magic_stick.Prelude.{
  ℕ, zero, suc, Bool, true, false, Option, none, some, List, [], ◌∷◌, ◌++◌, String, not, ◌&&◌, ◌||◌,
  if◌then◌else◌, or_else, is_some, any, length,
}
use aippliance_magic_stick.Prelude.Result.{
  Result, ok, err, Action, pure, throw, try_catch, continue, ◌>>=◌, ◌>>◌,
}
use aippliance_magic_stick.Prelude.Text.{truthy, str_eq}
use aippliance_magic_stick.Harness.Errors.{
  ReasonCode, Stage, Outcome, Thrown, harness, new_error, of_code, require_safe,
}
use aippliance_magic_stick.Harness.Journal.Entry.{
  ResourceKind, EntryState, JournalEntry, JournalData, Operation, CleanupFailure, failure_of,
  is_state, is_named,
}
use aippliance_magic_stick.Harness.Journal.Methods.{Ports, Cell, Live, NoteState, recovery_plan}

-- The journal, the world, and the loop's variable `operation`.
pub record Loop (W : Type 0) : Type 0 where
  pub journal : JournalData
  pub world : W
  pub operation : Operation

-- The entry at a position, and the object there changed.
abbrev pub entry_at : ℕ → List JournalEntry → Option JournalEntry
entry_at i [] = none
entry_at zero (item ∷ items) = some item
entry_at (suc i) (item ∷ items) = entry_at i items

abbrev pub set_at : ℕ → (JournalEntry → JournalEntry) → List JournalEntry → List JournalEntry
set_at i f [] = []
set_at zero f (item ∷ items) = f item ∷ items
set_at (suc i) f (item ∷ items) = item ∷ set_at i f items

-- `only`: the one entry that the caller asks for.
abbrev pub Only : Type 0
Only = Option (ResourceKind × String)

abbrev pub is_skipped : Only → JournalEntry → Bool
is_skipped none item = is_state item.state EntryState.removed
is_skipped (some (kind, name)) item =
    is_state item.state EntryState.removed || not (is_named kind name item)

abbrev pub removed : JournalEntry → JournalEntry
removed item = record item { state = EntryState.removed; cleanup_failure = none }

abbrev pub blocked : CleanupFailure → JournalEntry → JournalEntry
blocked failure item = record item { state = EntryState.blocked; cleanup_failure = some failure }

-- The uid of an entry whose state allows its removal: `(owned || blocked) && entry.uid`.
abbrev pub removable_uid : JournalEntry → Option String
removable_uid item =
    if is_state item.state EntryState.owned || is_state item.state EntryState.blocked
    then (if truthy (or_else item.uid "") then item.uid else none)
    else none

abbrev first_failure : CleanupFailure → Thrown
first_failure f = harness (
    new_error ReasonCode.cleanup Outcome.failed (some (or_else f.stage Stage.cleanup))
      (some (record { reason = f.reason; stage = f.stage })))

module _ {W : Type 0} (ports : Ports W) where
  open ports use {write, lookup, remove_if_uid, verify_removed, assert_held, note}

  abbrev pub port : {A : Type 0} → Action Thrown W A → Action Thrown (Loop W) A
  port m l = let (r, w) = m l.world in (r, record l { world = w })

  abbrev pub at_operation : Operation → Action Thrown (Loop W) (Unit {0})
  at_operation o l = (ok tt, record l { operation = o })

  abbrev pub change_at : ℕ → (JournalEntry → JournalEntry) → Action Thrown (Loop W) (Unit {0})
  change_at i f l =
      (ok tt, record l { journal = record (l.journal) { entries = set_at i f l.journal.entries } })

  abbrev pub save : Action Thrown (Loop W) (Unit {0})
  save l = port (write l.journal) l

  abbrev pub require_uid : Option String → Action Thrown (Loop W) String
  require_uid none = throw (of_code ReasonCode.ownership)
  require_uid (some uid) = pure uid

  -- `if (current) { … }`
  unfoldable pub remove_current :
      JournalEntry → String → Option Live → Action Thrown (Loop W) (Unit {0})
  remove_current entry uid none = pure tt
  remove_current entry uid (some current) = do
    require_safe (str_eq current.uid uid) ReasonCode.ownership
    at_operation Operation.guard
    port assert_held
    at_operation Operation.remove
    port (note entry Operation.remove NoteState.running)
    port (remove_if_uid entry uid)
    port (note entry Operation.remove NoteState.passed)

  -- The body of the `try`, up to the verified absence.
  unfoldable pub take_away : JournalEntry → Action Thrown (Loop W) (Unit {0})
  take_away entry = do
    port (note entry Operation.guard NoteState.running)
    port assert_held
    at_operation Operation.lookup
    port (note entry Operation.lookup NoteState.running)
    uid ← require_uid (removable_uid entry)
    current ← port (lookup entry)
    port (note entry Operation.lookup NoteState.passed)
    remove_current entry uid current
    at_operation Operation.verify
    port (note entry Operation.verify NoteState.running)
    gone ← port (verify_removed entry)
    require_safe gone ReasonCode.cleanup

  -- The rest of the `try`: the removal is recorded.
  unfoldable pub settle : ℕ → JournalEntry → Action Thrown (Loop W) (Unit {0})
  settle i entry = do
    change_at i removed
    at_operation Operation.persist
    save
    port (note entry Operation.persist NoteState.completed)

  -- The `catch`; it returns the failure that the entry now carries.
  unfoldable pub block : ℕ → JournalEntry → Thrown → Action Thrown (Loop W) CleanupFailure
  block i entry e l =
      (do
        change_at i (blocked (failure_of l.operation e))
        failure ←
            try_catch (do save; pure (failure_of l.operation e))
              (λ e'. do
                change_at i (blocked (failure_of Operation.persist e'))
                pure (failure_of Operation.persist e'))
        port (note entry l.operation NoteState.failed)
        pure failure)
        l

  -- One round of the loop on the entry at a position, with the failures so far.
  unfoldable pub visit_entry :
      ℕ → JournalEntry → List CleanupFailure → Action Thrown (Loop W) (List CleanupFailure)
  visit_entry i entry failures = do
    at_operation Operation.guard
    try_catch (do take_away entry; settle i entry; pure failures)
        (λ e. do failure ← block i entry e; pure (failures ++ failure ∷ []))

  abbrev pub visit_found :
      Only
      → ℕ
      → List CleanupFailure
      → Option JournalEntry
      → Action Thrown (Loop W) (List CleanupFailure)
  visit_found only i failures none = pure failures
  visit_found only i failures (some entry) =
      if is_skipped only entry then pure failures else visit_entry i entry failures

  unfoldable pub visit :
      Only → ℕ → List CleanupFailure → Action Thrown (Loop W) (List CleanupFailure)
  visit only i failures l = visit_found only i failures (entry_at i l.journal.entries) l

  -- The loop over the reversed entries: the positions below `n`, from the last.
  unfoldable pub visit_all :
      Only → ℕ → List CleanupFailure → Action Thrown (Loop W) (List CleanupFailure)
  visit_all only zero failures = pure failures
  visit_all only (suc i) failures = do more ← visit only i failures; visit_all only i more

  abbrev pub finish : List CleanupFailure → Action Thrown (Loop W) (Unit {0})
  finish [] = pure tt
  finish (f ∷ fs) = throw (first_failure f)

  abbrev pub is_known : Only → List JournalEntry → Bool
  is_known none items = true
  is_known (some (kind, name)) items = any (is_named kind name) items

  unfoldable pub cleanup : Only → Action Thrown (Loop W) (Unit {0})
  cleanup only l =
      (do
        require_safe (is_known only l.journal.entries) ReasonCode.ownership
        failures ← visit_all only (length l.journal.entries) []
        finish failures)
        l

  abbrev is_empty : {A : Type 0} → List A → Bool
  is_empty [] = true
  is_empty (x ∷ xs) = false

  -- The loop of `verifyCleanup`.
  unfoldable pub verify_each : List JournalEntry → Action Thrown W (Unit {0})
  verify_each [] = pure tt
  verify_each (item ∷ items) = do
    assert_held
    gone ← verify_removed item
    require_safe gone ReasonCode.cleanup
    verify_each items

  unfoldable pub verify_cleanup : List JournalEntry → Action Thrown W (Unit {0})
  unfolding recovery_plan verify_each
  verify_cleanup items = do
    require_safe (is_empty (recovery_plan items)) ReasonCode.cleanup
    verify_each items

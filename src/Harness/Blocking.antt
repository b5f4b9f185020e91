-- ===== src/Harness/Blocking.antt =====
-- The causes of blocked results, dashboard/apps/web/regression/core/blocking.ts. The catalogue of
-- the test cases is a parameter: which identifiers it has.
pub mod Public
pub mod Counts
pub mod Executions
pub mod Cause
pub mod Tests
use aippliance_magic_stick.Prelude.{
  Bool, true, false, Option, none, some, List, [], ◌∷◌, String, not, ◌&&◌, ◌||◌, if◌then◌else◌,
  or_else, or_option, is_some, find, filter, any, map,
}
use aippliance_magic_stick.Prelude.Text.{
  str_eq, same_text, truthy, includes, is_run_id, is_hex_text,
}
use Prim.Native.String
use aippliance_magic_stick.Shared.Blocked.{
  RegressionBlockedKind, RegressionBlockedCounts, kind_of, regression_blocked_kind,
  empty_blocked_counts, increment,
}
use aippliance_magic_stick.Harness.Errors.Codes.{reason_of}
use aippliance_magic_stick.Harness.Errors.Stages.{stage_of}

pub record RegressionBlocker : Type 0 where
  pub kind : RegressionBlockedKind
  pub reason : Option String
  pub case_id : Option String
  pub stage : Option String
  pub execution_id : Option String
  pub trace_run_id : Option String

-- A recorded blocker as it is read: its `kind` may be any text.
pub record Recorded : Type 0 where
  pub kind : String
  pub reason : Option String
  pub case_id : Option String
  pub stage : Option String
  pub execution_id : Option String
  pub trace_run_id : Option String

pub record BlockingEvidence : Type 0 where
  pub id : String
  pub outcome : String
  pub reason : Option String
  pub stage : Option String
  pub execution_id : Option String
  pub trace_run_id : Option String
  pub execution_outcome : Option String
  pub blocked_by : Option Recorded

-- An item of the result of `withBlockedCauses`.
pub record Resolved : Type 0 where
  pub item : BlockingEvidence
  pub blocked_by : Option RegressionBlocker

abbrev pub keep : (String → Bool) → Option String → Option String
keep p none = none
keep p (some s) = if p s then some s else none

-- `Object.hasOwn(reasons, s)`
unfoldable pub is_reason : String → Bool
is_reason s = is_some (reason_of s)

-- `stages.includes(s)`
unfoldable pub is_stage : String → Bool
is_stage s = is_some (stage_of s)

-- `/^[a-f0-9]{24}$/.test(s)`
unfoldable pub is_execution_id : String → Bool
is_execution_id s = is_hex_text 24 s

-- The key of the group of an execution.
abbrev pub group_key : BlockingEvidence → String
group_key item =
    String.◌++◌ (or_else item.trace_run_id "") (String.◌++◌ "/" (or_else item.execution_id ""))

abbrev pub has_execution : Option String → Bool
has_execution none = false
has_execution (some id) = truthy id && is_execution_id id

-- The rows that a map of groups holds under a key.
abbrev pub group : String → List BlockingEvidence → List BlockingEvidence
group k = filter (λ item. has_execution item.execution_id && str_eq (group_key item) k)

abbrev pub is_failed : BlockingEvidence → Bool
is_failed item = str_eq item.outcome "Failed" || str_eq item.outcome "Flaky"

abbrev pub is_blocked : BlockingEvidence → Bool
is_blocked item = str_eq item.outcome "Blocked"

-- `roots.get(k)`
unfoldable pub root_of : List BlockingEvidence → String → Option BlockingEvidence
root_of cases k =
    let peers = group k cases in
    or_option (find is_failed peers)
      (find (λ peer. is_blocked peer && not (same_text peer.reason (some "DEPENDENCY"))) peers)

module _ (is_case : String → Bool) where
  -- The object that checkedBlocker returns for a known kind.
  unfoldable pub clean :
      RegressionBlockedKind
      → Option String
      → Option String
      → Option String
      → Option String
      → Option String
      → RegressionBlocker
  clean kind reason case_id stage execution_id trace_run_id = record {
    kind = kind;
    reason = keep is_reason reason;
    case_id = keep is_case case_id;
    stage = keep is_stage stage;
    execution_id = keep is_execution_id execution_id;
    trace_run_id = keep is_run_id trace_run_id;
  }

  abbrev of_kind : Recorded → Option RegressionBlockedKind → Option RegressionBlocker
  of_kind r none = none
  of_kind r (some kind) = some (clean kind r.reason r.case_id r.stage r.execution_id r.trace_run_id)

  unfoldable pub checked_blocker : Option Recorded → Option RegressionBlocker
  checked_blocker none = none
  checked_blocker (some r) = of_kind r (kind_of r.kind)

  unfoldable pub blocker_from : BlockingEvidence → RegressionBlocker
  blocker_from item =
      clean
        (if is_failed item
          then RegressionBlockedKind.failure
          else regression_blocked_kind item.reason)
        item.reason (some item.id) item.stage item.execution_id item.trace_run_id

  abbrev bare : RegressionBlockedKind → Option String → RegressionBlocker
  bare kind reason = record {
    kind = kind;
    reason = reason;
    case_id = none;
    stage = none;
    execution_id = none;
    trace_run_id = none;
  }

  abbrev pub from_root : BlockingEvidence → Option BlockingEvidence → RegressionBlocker
  from_root item none =
      bare
        (if same_text item.execution_outcome (some "Failed")
          then RegressionBlockedKind.failure
          else RegressionBlockedKind.unknown)
        (some "DEPENDENCY")
  from_root item (some root) = or_else (checked_blocker root.blocked_by) (blocker_from root)

  -- `item.executionId ? roots.get(…) : undefined`
  abbrev pub root_for : List BlockingEvidence → BlockingEvidence → Option BlockingEvidence
  root_for cases item =
      if truthy (or_else item.execution_id "") then root_of cases (group_key item) else none

  -- The cause of a blocked item that has no recorded blocker.
  abbrev pub own_cause : List BlockingEvidence → BlockingEvidence → RegressionBlocker
  own_cause cases item =
      if same_text item.reason (some "DEPENDENCY")
      then from_root item (root_for cases item)
      else bare
          (if same_text item.reason (some "PREREQUISITE")
              && not (truthy (or_else item.execution_id ""))
            then RegressionBlockedKind.unknown
            else regression_blocked_kind item.reason)
          (keep is_reason item.reason)

  unfoldable pub resolve : List BlockingEvidence → BlockingEvidence → Option RegressionBlocker
  resolve cases item =
      if is_blocked item
      then some (or_else (checked_blocker item.blocked_by) (own_cause cases item))
      else none

  unfoldable pub with_blocked_causes : List BlockingEvidence → List Resolved
  with_blocked_causes cases =
      map (λ item. record { item = item; blocked_by = resolve cases item }) cases

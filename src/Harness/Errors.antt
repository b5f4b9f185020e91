-- ===== src/Harness/Errors.antt =====
-- The failures of the harness, dashboard/apps/web/regression/core/errors.ts. What a call throws is
-- a HarnessError, or any other error, of which the harness reads nothing.
pub mod Codes
pub mod Stages
pub mod Laws
pub mod Requires
pub mod Tests
use aippliance_magic_stick.Prelude.{Bool, true, false, Option, none, some, if◌then◌else◌, or_else}
use aippliance_magic_stick.Prelude.Result.{Result, ok, err, Action, try_catch}
pub use Codes.{ReasonCode}
pub use Stages.{Stage}
use Codes.{is_blocked_reason}

pub data Outcome : Type 0 where
  blocked failed : Outcome

-- `{reason, stage?}`, the cause that a HarnessError carries.
pub record Cause : Type 0 where
  pub reason : ReasonCode
  pub stage : Option Stage

-- The fields of `class HarnessError`; its message is a fixed text made from them.
pub record HarnessError : Type 0 where
  pub code : ReasonCode
  pub outcome : Outcome
  pub stage : Option Stage
  pub cause_reason : Option ReasonCode
  pub cause_stage : Option Stage

pub data Thrown : Type 0 where
  harness : HarnessError → Thrown
  other : Thrown

-- The default of the constructor's second argument.
abbrev pub default_outcome : ReasonCode → Outcome
unfolding is_blocked_reason
default_outcome code = if is_blocked_reason code then Outcome.blocked else Outcome.failed

abbrev cause_fields : Option Cause → Option ReasonCode × Option Stage
cause_fields none = (none, none)
cause_fields (some c) = (some c.reason, c.stage)

-- `new HarnessError(code, outcome, stage, cause)`.
abbrev pub new_error : ReasonCode → Outcome → Option Stage → Option Cause → HarnessError
new_error code outcome stage cause = record {
  code = code;
  outcome = outcome;
  stage = stage;
  cause_reason = (cause_fields cause).0;
  cause_stage = (cause_fields cause).1;
}

-- `new HarnessError(code)`.
abbrev pub of_code : ReasonCode → Thrown
of_code code = harness (new_error code (default_outcome code) none none)

abbrev pub require_safe : {S : Type 0} → Bool → ReasonCode → Action Thrown S (Unit {0})
require_safe condition code s = (if condition then ok tt else err (of_code code), s)

abbrev is_prerequisite : ReasonCode → Bool
is_prerequisite ReasonCode.prerequisite = true
is_prerequisite _ = false

abbrev pub proof_error : ReasonCode → Thrown
proof_error code =
    harness
      (new_error code (if is_prerequisite code then Outcome.blocked else Outcome.failed) none none)

abbrev pub require_proof : {S : Type 0} → Bool → ReasonCode → Action Thrown S (Unit {0})
require_proof condition code s = (if condition then ok tt else err (proof_error code), s)

abbrev cause_of : HarnessError → Option Cause
cause_of e = with_reason e.cause_reason
  where
    with_reason : Option ReasonCode → Option Cause
    with_reason none = none
    with_reason (some r) = some (record { reason = r; stage = e.cause_stage })

abbrev pub or_stage : Option Stage → Stage → Option Stage
or_stage none stage = some stage
or_stage (some s) stage = some s

-- The error that `atStage` throws in place of the one it caught.
unfoldable pub staged : Stage → Thrown → Thrown
staged stage (harness e) =
    harness (new_error e.code e.outcome (or_stage e.stage stage) (cause_of e))
staged stage other = harness (new_error ReasonCode.unexpected Outcome.failed (some stage) none)

unfoldable pub at_stage : {S A : Type 0} → Stage → Action Thrown S A → Action Thrown S A
unfolding staged
at_stage stage action = try_catch action (λ e s. (err (staged stage e), s))

-- ===== src/Harness/Errors/Codes.antt =====
-- The fixed codes of dashboard/apps/web/regression/core/errors.ts: reasons (without their public
-- sentences), the reasons that block, and the stage names. A code in private JSON is a text, and
-- is accepted only if it is the spelling of one of these.
use aippliance_magic_stick.Prelude.{Bool, true, false, Option, List, [], ◌∷◌, String, find}
use aippliance_magic_stick.Prelude.Text.{str_eq}

-- The keys of `reasons`.
pub data ReasonCode : Type 0 where
  config prerequisite preparation_failed dependency private_file tls auth api component identity
        capability application_model gpu_provider gpu_validation revision host busy observer
        mutation lock_busy lock_stale lock_lost ownership cleanup conflict deadline unexpected
        process_state missing_evidence report_export ci_access cache_race_window lab recovery
        cancelled external_runner :
      ReasonCode

pub ReasonCode-discrete : Discrete ReasonCode
ReasonCode-discrete = hlevel

-- The source's spelling of a reason.
unfoldable pub reason_key : ReasonCode → String
reason_key ReasonCode.config = "CONFIG"
reason_key ReasonCode.prerequisite = "PREREQUISITE"
reason_key ReasonCode.preparation_failed = "PREPARATION_FAILED"
reason_key ReasonCode.dependency = "DEPENDENCY"
reason_key ReasonCode.private_file = "PRIVATE_FILE"
reason_key ReasonCode.tls = "TLS"
reason_key ReasonCode.auth = "AUTH"
reason_key ReasonCode.api = "API"
reason_key ReasonCode.component = "COMPONENT"
reason_key ReasonCode.identity = "IDENTITY"
reason_key ReasonCode.capability = "CAPABILITY"
reason_key ReasonCode.application_model = "APPLICATION_MODEL"
reason_key ReasonCode.gpu_provider = "GPU_PROVIDER"
reason_key ReasonCode.gpu_validation = "GPU_VALIDATION"
reason_key ReasonCode.revision = "REVISION"
reason_key ReasonCode.host = "HOST"
reason_key ReasonCode.busy = "BUSY"
reason_key ReasonCode.observer = "OBSERVER"
reason_key ReasonCode.mutation = "MUTATION"
reason_key ReasonCode.lock_busy = "LOCK_BUSY"
reason_key ReasonCode.lock_stale = "LOCK_STALE"
reason_key ReasonCode.lock_lost = "LOCK_LOST"
reason_key ReasonCode.ownership = "OWNERSHIP"
reason_key ReasonCode.cleanup = "CLEANUP"
reason_key ReasonCode.conflict = "CONFLICT"
reason_key ReasonCode.deadline = "DEADLINE"
reason_key ReasonCode.unexpected = "UNEXPECTED"
reason_key ReasonCode.process_state = "PROCESS_STATE"
reason_key ReasonCode.missing_evidence = "MISSING_EVIDENCE"
reason_key ReasonCode.report_export = "REPORT_EXPORT"
reason_key ReasonCode.ci_access = "CI_ACCESS"
reason_key ReasonCode.cache_race_window = "CACHE_RACE_WINDOW"
reason_key ReasonCode.lab = "LAB"
reason_key ReasonCode.recovery = "RECOVERY"
reason_key ReasonCode.cancelled = "CANCELLED"
reason_key ReasonCode.external_runner = "EXTERNAL_RUNNER"

-- `Object.keys(reasons)`.
abbrev pub all_reasons : List ReasonCode
all_reasons =
    ReasonCode.config ∷ ReasonCode.prerequisite ∷ ReasonCode.preparation_failed
    ∷ ReasonCode.dependency ∷ ReasonCode.private_file ∷ ReasonCode.tls ∷ ReasonCode.auth
    ∷ ReasonCode.api ∷ ReasonCode.component ∷ ReasonCode.identity ∷ ReasonCode.capability
    ∷ ReasonCode.application_model ∷ ReasonCode.gpu_provider ∷ ReasonCode.gpu_validation
    ∷ ReasonCode.revision ∷ ReasonCode.host ∷ ReasonCode.busy ∷ ReasonCode.observer
    ∷ ReasonCode.mutation ∷ ReasonCode.lock_busy ∷ ReasonCode.lock_stale ∷ ReasonCode.lock_lost
    ∷ ReasonCode.ownership ∷ ReasonCode.cleanup ∷ ReasonCode.conflict ∷ ReasonCode.deadline
    ∷ ReasonCode.unexpected ∷ ReasonCode.process_state ∷ ReasonCode.missing_evidence
    ∷ ReasonCode.report_export ∷ ReasonCode.ci_access ∷ ReasonCode.cache_race_window
    ∷ ReasonCode.lab ∷ ReasonCode.recovery ∷ ReasonCode.cancelled ∷ ReasonCode.external_runner ∷ []

-- `blockedReasons.includes(code)`.
unfoldable pub is_blocked_reason : ReasonCode → Bool
is_blocked_reason ReasonCode.prerequisite = true
is_blocked_reason ReasonCode.preparation_failed = true
is_blocked_reason ReasonCode.dependency = true
is_blocked_reason ReasonCode.private_file = true
is_blocked_reason ReasonCode.tls = true
is_blocked_reason ReasonCode.identity = true
is_blocked_reason ReasonCode.capability = true
is_blocked_reason ReasonCode.application_model = true
is_blocked_reason ReasonCode.gpu_provider = true
is_blocked_reason ReasonCode.gpu_validation = true
is_blocked_reason ReasonCode.host = true
is_blocked_reason ReasonCode.busy = true
is_blocked_reason ReasonCode.observer = true
is_blocked_reason ReasonCode.lock_busy = true
is_blocked_reason ReasonCode.lock_stale = true
is_blocked_reason ReasonCode.lock_lost = true
is_blocked_reason ReasonCode.lab = true
is_blocked_reason ReasonCode.recovery = true
is_blocked_reason ReasonCode.cancelled = true
is_blocked_reason ReasonCode.external_runner = true
is_blocked_reason ReasonCode.ci_access = true
is_blocked_reason ReasonCode.cache_race_window = true
is_blocked_reason _ = false

-- `Object.hasOwn(reasons, s)`, with the code that it names.
unfoldable pub reason_of : String → Option ReasonCode
unfolding reason_key
reason_of s = find (λ c. str_eq (reason_key c) s) all_reasons

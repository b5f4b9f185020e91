-- ===== src/Shared/Blocked.antt =====
-- The kinds of blocked results, dashboard/packages/core/src/regression-blocking.ts.
use aippliance_magic_stick.Prelude.{
  ℕ, suc, ◌+◌, Option, List, [], ◌∷◌, String, if◌then◌else◌, or_else, find,
}
use aippliance_magic_stick.Prelude.Text.{str_eq, includes}

pub data RegressionBlockedKind : Type 0 where
  prerequisite failure cancelled unknown : RegressionBlockedKind

pub record RegressionBlockedCounts : Type 0 where
  pub prerequisite : ℕ
  pub failure : ℕ
  pub cancelled : ℕ
  pub unknown : ℕ

abbrev pub kind_key : RegressionBlockedKind → String
kind_key RegressionBlockedKind.prerequisite = "prerequisite"
kind_key RegressionBlockedKind.failure = "failure"
kind_key RegressionBlockedKind.cancelled = "cancelled"
kind_key RegressionBlockedKind.unknown = "unknown"

abbrev regression_blocked_kinds : List RegressionBlockedKind
regression_blocked_kinds =
    RegressionBlockedKind.prerequisite ∷ RegressionBlockedKind.failure
    ∷ RegressionBlockedKind.cancelled ∷ RegressionBlockedKind.unknown ∷ []

-- `regressionBlockedKinds.includes(kind)`, with the kind that it names.
unfoldable pub kind_of : String → Option RegressionBlockedKind
kind_of s = find (λ k. str_eq (kind_key k) s) regression_blocked_kinds

abbrev pub empty_blocked_counts : RegressionBlockedCounts
empty_blocked_counts = record { prerequisite = 0; failure = 0; cancelled = 0; unknown = 0 }

-- `counts[kind]++`
abbrev pub increment : RegressionBlockedKind → RegressionBlockedCounts → RegressionBlockedCounts
increment RegressionBlockedKind.prerequisite c = record c { prerequisite = suc c.prerequisite }
increment RegressionBlockedKind.failure c = record c { failure = suc c.failure }
increment RegressionBlockedKind.cancelled c = record c { cancelled = suc c.cancelled }
increment RegressionBlockedKind.unknown c = record c { unknown = suc c.unknown }

abbrev pub total : RegressionBlockedCounts → ℕ
total c = c.prerequisite + c.failure + c.cancelled + c.unknown

abbrev pub failure_reasons : List String
failure_reasons =
    "PREPARATION_FAILED" ∷ "CONFIG" ∷ "AUTH" ∷ "API" ∷ "COMPONENT" ∷ "MUTATION" ∷ "OWNERSHIP"
    ∷ "CLEANUP" ∷ "CONFLICT" ∷ "DEADLINE" ∷ "UNEXPECTED" ∷ "PROCESS_STATE" ∷ "LOCK_LOST"
    ∷ "RECOVERY" ∷ []

abbrev pub prerequisite_reasons : List String
prerequisite_reasons =
    "PREREQUISITE" ∷ "PRIVATE_FILE" ∷ "TLS" ∷ "IDENTITY" ∷ "CAPABILITY" ∷ "APPLICATION_MODEL"
    ∷ "GPU_PROVIDER" ∷ "GPU_VALIDATION" ∷ "HOST" ∷ "BUSY" ∷ "OBSERVER" ∷ "LOCK_BUSY" ∷ "LOCK_STALE"
    ∷ "LAB" ∷ "EXTERNAL_RUNNER" ∷ "CACHE_RACE_WINDOW" ∷ []

unfoldable pub regression_blocked_kind : Option String → RegressionBlockedKind
regression_blocked_kind reason =
    let s = or_else reason "" in
    if str_eq s "CANCELLED"
    then RegressionBlockedKind.cancelled
    else (if includes failure_reasons s
        then RegressionBlockedKind.failure
        else (if includes prerequisite_reasons s
            then RegressionBlockedKind.prerequisite
            else RegressionBlockedKind.unknown))

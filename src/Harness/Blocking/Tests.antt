-- ===== src/Harness/Blocking/Tests.antt =====
-- Examples for blocking.ts: an execution with a failed step and a step that depends on it.
use aippliance_magic_stick.Prelude.{
  Bool, true, false, Option, none, some, List, [], ◌∷◌, String, All, ◌≡◌, refl, subst, arith,
  Bool-cases, inl, inr,
}
use aippliance_magic_stick.Prelude.Text.{is_hex_text, str_eq, str_eq_iff}
use aippliance_magic_stick.Shared.Blocked.{total}
use aippliance_magic_stick.Harness.Blocking.{BlockingEvidence, blocker_from, with_blocked_causes}
use aippliance_magic_stick.Harness.Blocking.Counts.{blocked_counts, total-blocked_counts}
use aippliance_magic_stick.Prelude.TextSets.{has_text}
use aippliance_magic_stick.Harness.Blocking.Executions.{is_open, total-executions}
use aippliance_magic_stick.Harness.Blocking.Public.{IsExplained, with_blocked_causes-IsExplained}
use aippliance_magic_stick.Harness.Blocking.Cause.{
  Environment, fits, recorded_of, root_failure, recovery_cause, inherit_recovery_cause,
  inherit_recovery_cause-sticky,
}
use aippliance_magic_stick.Harness.Blocking.{Recorded, RegressionBlocker, is_execution_id}
use aippliance_magic_stick.Prelude.{is_some}

abbrev is_case : String → Bool
is_case s = str_eq s "MOD-01"

abbrev evidence : String → String → Option String → BlockingEvidence
evidence id outcome reason = record {
  id = id;
  outcome = outcome;
  reason = reason;
  stage = none;
  execution_id = some "0123456789abcdef01234567";
  trace_run_id = none;
  execution_outcome = none;
  blocked_by = none;
}

abbrev failed : BlockingEvidence
failed = evidence "MOD-01" "Failed" (some "API")

abbrev dependent : BlockingEvidence
dependent = evidence "MOD-02" "Blocked" (some "DEPENDENCY")

abbrev cases : List BlockingEvidence
cases = failed ∷ dependent ∷ []

-- Two steps of one execution, one passed and one blocked by a missing prerequisite, and a failed
-- execution: one execution is counted.
abbrev unmet : List BlockingEvidence
unmet =
    evidence "MOD-01" "Passed" none
    ∷ evidence "MOD-02" "Blocked" (some "PREREQUISITE")
    ∷ record failed { execution_id = some "ffffffffffffffffffffffff" }
    ∷ []

abbrev open_key : String
open_key = "/0123456789abcdef01234567"

is_open_key :
    (k : String) → has_text k (open_key ∷ []) ≡ is_open (with_blocked_causes is_case unmet) k
unfolding with_blocked_causes is_execution_id is_hex_text
is_open_key k = elim (Bool-cases (str_eq open_key k)) [
  | inl e ↦
      subst (λ x. has_text x (open_key ∷ []) ≡ is_open (with_blocked_causes is_case unmet) x)
        ((str_eq_iff open_key k).0 e) refl
  | inr n ↦ ground (arith, n)
]

total-executions_example : total (blocked_counts is_case unmet true) ≡ 1
total-executions_example = total-executions is_case unmet (open_key ∷ []) (refl, tt) is_open_key

total-blocked_counts_example : total (blocked_counts is_case cases false) ≡ 1
total-blocked_counts_example = total-blocked_counts is_case cases

with_blocked_causes-IsExplained_example :
    All (IsExplained is_case) (with_blocked_causes is_case cases)
with_blocked_causes-IsExplained_example = with_blocked_causes-IsExplained is_case cases

abbrev parse : String → Option Recorded
parse s = some (recorded_of (blocker_from is_case failed))

abbrev stringify : RegressionBlocker → String
stringify b = "{}"

abbrev environment : Environment
environment = record { fence = none; cause = none }

abbrev fenced : Environment
fenced = inherit_recovery_cause is_case parse stringify environment cases true

inherit_recovery_cause-sticky_example :
    (is_some (recovery_cause is_case parse stringify fenced.cause) ≡ true)
    × (inherit_recovery_cause is_case parse stringify fenced (dependent ∷ []) true ≡ fenced)
unfolding root_failure fits
inherit_recovery_cause-sticky_example =
    inherit_recovery_cause-sticky is_case parse stringify environment cases (dependent ∷ []) failed
      refl refl refl refl

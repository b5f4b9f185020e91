-- ===== src/Harness/Blocking/Cause.antt =====
-- The cause of a recovery fence (blocking.ts): recoveryCause and inheritRecoveryCause. `JSON.parse`
-- with the shape of a blocker, and `JSON.stringify`, are parameters.
use aippliance_magic_stick.Prelude.{
  ℕ, suc, Bool, true, Option, none, some, List, [], ◌∷◌, String, ◌&&◌, leb, if◌then◌else◌, or_else,
  or_option, is_some, find, ◌≡◌, refl, Bool-cases, inl, inr,
}
use aippliance_magic_stick.Prelude.Text.{str_eq, same_text, truthy, includes, codes}
use aippliance_magic_stick.Shared.Blocked.{RegressionBlockedKind, kind_key, kind_of}
use aippliance_magic_stick.Harness.Blocking.{
  RegressionBlocker, Recorded, BlockingEvidence, clean, checked_blocker, blocker_from,
}

-- REGRESSION_RECOVERY_FENCE and REGRESSION_RECOVERY_CAUSE.
pub record Environment : Type 0 where
  pub fence : Option String
  pub cause : Option String

-- `value.length`: a code point above U+FFFF counts as two.
abbrev units : List ℕ → ℕ
units [] = 0
units (c ∷ s) = let rest = units s in if leb c 65535 then suc rest else suc (suc rest)

-- `value && value.length <= 2048`
unfoldable pub fits : String → Bool
fits value = truthy value && leb (units (codes value)) 2048

-- The object that JSON.parse gives back for a blocker.
abbrev pub recorded_of : RegressionBlocker → Recorded
recorded_of b = record {
  kind = kind_key b.kind;
  reason = b.reason;
  case_id = b.case_id;
  stage = b.stage;
  execution_id = b.execution_id;
  trace_run_id = b.trace_run_id;
}

abbrev pub has_failed : BlockingEvidence → Bool
has_failed item = str_eq item.outcome "Failed"

abbrev fencing_reasons : List String
fencing_reasons =
    "CLEANUP" ∷ "OWNERSHIP" ∷ "CONFLICT" ∷ "LOCK_LOST" ∷ "LOCK_STALE" ∷ "RECOVERY" ∷ "PROCESS_STATE"
    ∷ []

-- `root`
unfoldable pub root_failure : List BlockingEvidence → Option BlockingEvidence
root_failure cases =
    or_option
      (find
        (λ item.
          has_failed item
          && str_eq item.id "HAR-10"
          && same_text item.stage (some "runner-execution"))
        cases)
      (or_option
        (find (λ item. has_failed item && includes fencing_reasons (or_else item.reason "")) cases)
        (find has_failed cases))

module _ (is_case : String → Bool) (parse : String → Option Recorded)
    (stringify : RegressionBlocker → String) where
  abbrev failure_only : Option RegressionBlocker → Option RegressionBlocker
  failure_only none = none
  failure_only (some b) = by_kind b.kind
    where
      by_kind : RegressionBlockedKind → Option RegressionBlocker
      by_kind RegressionBlockedKind.failure = some b
      by_kind _ = none

  abbrev cause_of : Option String → Option RegressionBlocker
  cause_of none = none
  cause_of (some value) =
      if fits value then failure_only (checked_blocker is_case (parse value)) else none

  unfoldable pub recovery_cause : Option String → Option RegressionBlocker
  recovery_cause value = cause_of value

  abbrev record_cause : Option BlockingEvidence → Option String → Option String
  record_cause none cause = cause
  record_cause (some root) cause = some (stringify (blocker_from is_case root))

  unfoldable pub inherit_recovery_cause : Environment → List BlockingEvidence → Bool → Environment
  inherit_recovery_cause environment cases active =
      if active
      then record {
        fence = some "1";
        cause =
            if is_some (recovery_cause environment.cause)
            then environment.cause
            else record_cause (root_failure cases) environment.cause;
      }
      else record { fence = none; cause = none }

  failed_kind :
      (root : BlockingEvidence)
      → has_failed root ≡ true
      → (blocker_from is_case root).kind ≡ RegressionBlockedKind.failure
  unfolding blocker_from clean
  failed_kind root failed = rw failed refl

  read_back :
      (b : RegressionBlocker)
      → b.kind ≡ RegressionBlockedKind.failure
      → is_some (failure_only (checked_blocker is_case (some (recorded_of b)))) ≡ true
  unfolding checked_blocker kind_of clean
  read_back b h = rw h refl

  -- The cause that a failed case leaves is read back as a cause.
  recorded_lem :
      (root : BlockingEvidence)
      → parse (stringify (blocker_from is_case root))
        ≡ some (recorded_of (blocker_from is_case root))
      → has_failed root ≡ true
      → fits (stringify (blocker_from is_case root)) ≡ true
      → is_some (recovery_cause (some (stringify (blocker_from is_case root)))) ≡ true
  unfolding recovery_cause
  recorded_lem root json failed fit =
      rw fit (rw json (read_back (blocker_from is_case root) (failed_kind root failed)))

  -- A cause that is there stays.
  kept :
      (environment : Environment) (cases : List BlockingEvidence)
      → environment.fence ≡ some "1"
      → is_some (recovery_cause environment.cause) ≡ true
      → inherit_recovery_cause environment cases true ≡ environment
  unfolding inherit_recovery_cause
  kept environment cases f c = rw (c, f) refl

  cause_lem :
      (environment : Environment) (cases : List BlockingEvidence) (root : BlockingEvidence)
      → parse (stringify (blocker_from is_case root))
        ≡ some (recorded_of (blocker_from is_case root))
      → root_failure cases ≡ some root
      → has_failed root ≡ true
      → fits (stringify (blocker_from is_case root)) ≡ true
      → is_some (recovery_cause (inherit_recovery_cause environment cases true).cause) ≡ true
  unfolding inherit_recovery_cause
  cause_lem environment cases root json found failed fit =
      elim (Bool-cases (is_some (recovery_cause environment.cause))) [
        | inl h ↦ rw h h
        | inr h ↦ rw h (rw found (recorded_lem root json failed fit))
      ]

  fence_lem :
      (environment : Environment) (cases : List BlockingEvidence)
      → (inherit_recovery_cause environment cases true).fence ≡ some "1"
  unfolding inherit_recovery_cause
  fence_lem environment cases = refl

  -- The first failure that fences a recovery stays its cause: once a phase with a failed case has
  -- set the fence, its cause is valid, and no later phase with the fence active changes it. The JSON
  -- of the cause is read back as it was written, and fits the bound of 2048 units.
  pub inherit_recovery_cause-sticky :
      (environment : Environment) (cases more : List BlockingEvidence) (root : BlockingEvidence)
      → parse (stringify (blocker_from is_case root))
        ≡ some (recorded_of (blocker_from is_case root))
      → root_failure cases ≡ some root
      → has_failed root ≡ true
      → fits (stringify (blocker_from is_case root)) ≡ true
      → let first = inherit_recovery_cause environment cases true in
        (is_some (recovery_cause first.cause) ≡ true)
        × (inherit_recovery_cause first more true ≡ first)
  inherit_recovery_cause-sticky environment cases more root json found failed fit =
      let there = cause_lem environment cases root json found failed fit in
      (
        there,
        kept (inherit_recovery_cause environment cases true) more (fence_lem environment cases)
            there,
      )

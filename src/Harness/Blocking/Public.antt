-- ===== src/Harness/Blocking/Public.antt =====
-- What the causes of blocked results (blocking.ts) disclose, and where they come from.
use aippliance_magic_stick.Prelude.{
  Bool, true, false, Option, none, some, List, [], ◌∷◌, String, if◌then◌else◌, or_else, is_some,
  map, All, ◌≡◌, refl, Bool-cases, inl, inr,
}
use aippliance_magic_stick.Prelude.Text.{same_text, is_run_id}
use aippliance_magic_stick.Shared.Blocked.{RegressionBlockedKind, kind_of}
use aippliance_magic_stick.Harness.Errors.Codes.{reason_of}
use aippliance_magic_stick.Harness.Blocking.{
  RegressionBlocker, Recorded, BlockingEvidence, Resolved, keep, is_reason, is_stage,
  is_execution_id, is_blocked, clean, checked_blocker, blocker_from, from_root, root_for, own_cause,
  resolve, with_blocked_causes,
}

-- What is there satisfies the test.
abbrev Only : (String → Bool) → Option String → Type 0
Only p none = Unit
Only p (some s) = p s ≡ true

-- A blocker that may be published: known reasons and stages, identifiers of the catalogue, and the
-- fixed forms of execution and run identifiers.
pub record IsPublic (is_case : String → Bool) (b : RegressionBlocker) : Type 0 where
  pub reason : Only is_reason b.reason
  pub case_id : Only is_case b.case_id
  pub stage : Only is_stage b.stage
  pub execution_id : Only is_execution_id b.execution_id
  pub trace_run_id : Only is_run_id b.trace_run_id

abbrev pub Published : (String → Bool) → Option RegressionBlocker → Type 0
Published is_case none = Unit
Published is_case (some b) = IsPublic is_case b

-- Exactly a blocked item has a blocker, and the blocker may be published.
abbrev pub IsExplained : (String → Bool) → Resolved → Type 0
IsExplained is_case row =
    (is_some row.blocked_by ≡ is_blocked row.item) × Published is_case row.blocked_by

keep_lem : (p : String → Bool) (o : Option String) → Only p (keep p o)
keep_lem p none = tt
keep_lem p (some s) = by_test (p s) refl
  where
    by_test : (b : Bool) → p s ≡ b → Only p (if b then some s else none)
    by_test true h = h
    by_test false h = tt

is_reason-dependency : is_reason "DEPENDENCY" ≡ true
unfolding is_reason reason_of
is_reason-dependency = refl

module _ (is_case : String → Bool) where
  clean-IsPublic :
      (k : RegressionBlockedKind) (r c s e t : Option String)
      → IsPublic is_case (clean is_case k r c s e t)
  unfolding clean
  clean-IsPublic k r c s e t = record {
    reason = keep_lem is_reason r;
    case_id = keep_lem is_case c;
    stage = keep_lem is_stage s;
    execution_id = keep_lem is_execution_id e;
    trace_run_id = keep_lem is_run_id t;
  }

  blocker_from-IsPublic : (item : BlockingEvidence) → IsPublic is_case (blocker_from is_case item)
  unfolding blocker_from
  blocker_from-IsPublic item =
      clean-IsPublic _ item.reason (some item.id) item.stage item.execution_id item.trace_run_id

  checked_or :
      (r : Option Recorded) (d : RegressionBlocker)
      → IsPublic is_case d
      → IsPublic is_case (or_else (checked_blocker is_case r) d)
  unfolding checked_blocker
  checked_or none d h = h
  checked_or (some r) d h = by_kind (kind_of r.kind)
    where
      by_kind :
          (k : Option RegressionBlockedKind)
          → IsPublic is_case (
              or_else
                (elim k [
                  | none ↦ none
                  | some kind ↦
                      some (
                        clean is_case kind r.reason r.case_id r.stage r.execution_id r.trace_run_id)
                ])
                d)
      by_kind none = h
      by_kind (some k) = clean-IsPublic k r.reason r.case_id r.stage r.execution_id r.trace_run_id

  from_root-IsPublic :
      (item : BlockingEvidence) (root : Option BlockingEvidence)
      → IsPublic is_case (from_root is_case item root)
  from_root-IsPublic item none = record {
    reason = is_reason-dependency;
    case_id = tt;
    stage = tt;
    execution_id = tt;
    trace_run_id = tt;
  }
  from_root-IsPublic item (some root) =
      checked_or root.blocked_by (blocker_from is_case root) (blocker_from-IsPublic root)

  own_cause-IsPublic :
      (cases : List BlockingEvidence) (item : BlockingEvidence)
      → IsPublic is_case (own_cause is_case cases item)
  own_cause-IsPublic cases item = elim (Bool-cases (same_text item.reason (some "DEPENDENCY"))) [
    | inl h ↦ rw h (from_root-IsPublic item (root_for is_case cases item))
    | inr h ↦ rw h (record {
      reason = keep_lem is_reason item.reason;
      case_id = tt;
      stage = tt;
      execution_id = tt;
      trace_run_id = tt;
    })
  ]

  explained :
      (b : Bool) (r : RegressionBlocker)
      → IsPublic is_case r
      → (is_some (if b then some r else none) ≡ b) × Published is_case (if b then some r else none)
  explained true r h = (refl, h)
  explained false r h = (refl, tt)

  rows_lem :
      (cases items : List BlockingEvidence)
      → All
          (IsExplained is_case)
          (map (λ item. record { item = item; blocked_by = resolve is_case cases item }) items)
  unfolding resolve
  rows_lem cases [] = tt
  rows_lem cases (item ∷ items) = (
    explained (is_blocked item)
        (or_else (checked_blocker is_case item.blocked_by) (own_cause is_case cases item))
        (checked_or item.blocked_by (own_cause is_case cases item) (own_cause-IsPublic cases item)),
    rows_lem cases items,
  )

-- Exactly the blocked items have a cause, and each cause holds known reasons and stages,
-- identifiers of the case catalogue, and well-formed execution and run identifiers only, whatever
-- texts the evidence held.
pub with_blocked_causes-IsExplained :
    (is_case : String → Bool) (cases : List BlockingEvidence)
    → All (IsExplained is_case) (with_blocked_causes is_case cases)
unfolding with_blocked_causes
with_blocked_causes-IsExplained is_case cases = rows_lem is_case cases cases

-- ===== src/Harness/Blocking/Counts.antt =====
-- `blockedCounts` (blocking.ts), and what its counts add up to.
use aippliance_magic_stick.Prelude.{
  ℕ, suc, ◌+◌, Bool, true, false, Option, none, some, List, [], ◌∷◌, String, not, ◌&&◌, ◌||◌,
  if◌then◌else◌, or_else, any, map, filter, count, ◌≡◌, refl, ◌∙◌, ap, arith,
}
use aippliance_magic_stick.Prelude.Text.{str_eq}
use aippliance_magic_stick.Shared.Blocked.{
  RegressionBlockedKind, RegressionBlockedCounts, empty_blocked_counts, increment, total,
}
use aippliance_magic_stick.Harness.Blocking.{
  RegressionBlocker, BlockingEvidence, Resolved, is_blocked, has_execution, group_key, resolve,
  with_blocked_causes,
}

abbrev same_kind : RegressionBlockedKind → RegressionBlockedKind → Bool
same_kind RegressionBlockedKind.prerequisite RegressionBlockedKind.prerequisite = true
same_kind RegressionBlockedKind.failure RegressionBlockedKind.failure = true
same_kind RegressionBlockedKind.cancelled RegressionBlockedKind.cancelled = true
same_kind RegressionBlockedKind.unknown RegressionBlockedKind.unknown = true
same_kind _ _ = false

-- `counts[blockedBy.kind]++`; every blocked item has a blocker.
abbrev pub add : Option RegressionBlocker → RegressionBlockedCounts → RegressionBlockedCounts
add none counts = counts
add (some b) counts = increment b.kind counts

-- The loop over the items.
unfoldable pub tally : List Resolved → RegressionBlockedCounts → RegressionBlockedCounts
tally [] counts = counts
tally (row ∷ rows) counts =
    tally rows (if is_blocked row.item then add row.blocked_by counts else counts)

abbrev pub in_group : String → Resolved → Bool
in_group k row = has_execution row.item.execution_id && str_eq (group_key row.item) k

-- The keys of the map of groups, in the order of their insertion.
unfoldable pub group_keys : List Resolved → List String
group_keys [] = []
group_keys (row ∷ rows) =
    let rest = group_keys rows in
    if has_execution row.item.execution_id
    then group_key row.item ∷ filter (λ k. not (str_eq k (group_key row.item))) rest
    else rest

-- `row.executionOutcome ?? row.outcome`
abbrev outcome_of : Resolved → String
outcome_of row = or_else row.item.execution_outcome row.item.outcome

-- The execution failed, or all of it passed.
abbrev is_other : List Resolved → Bool
is_other rows =
    any (λ row. str_eq (outcome_of row) "Failed" || str_eq (outcome_of row) "Flaky") rows
    || not (any (λ row. not (str_eq (outcome_of row) "Passed")) rows)

abbrev blocked_as : RegressionBlockedKind → Option RegressionBlocker → Bool
blocked_as kind none = false
blocked_as kind (some b) = same_kind b.kind kind

-- `kinds.includes(kind)`
abbrev has_kind : RegressionBlockedKind → List Resolved → Bool
has_kind kind = any (λ row. is_blocked row.item && blocked_as kind row.blocked_by)

-- The kind that an execution is counted under.
unfoldable pub execution_kind : List Resolved → RegressionBlockedKind
execution_kind rows =
    if has_kind RegressionBlockedKind.failure rows
    then RegressionBlockedKind.failure
    else (if has_kind RegressionBlockedKind.prerequisite rows
        then RegressionBlockedKind.prerequisite
        else (if has_kind RegressionBlockedKind.cancelled rows
            then RegressionBlockedKind.cancelled
            else RegressionBlockedKind.unknown))

-- The loop over the groups.
unfoldable pub tally_executions :
    List Resolved → List String → RegressionBlockedCounts → RegressionBlockedCounts
tally_executions rows [] counts = counts
tally_executions rows (k ∷ ks) counts =
    let group = filter (in_group k) rows in
    tally_executions rows ks
      (if is_other group then counts else increment (execution_kind group) counts)

-- The groups that are counted: neither failed nor passed.
abbrev pub is_counted : List Resolved → String → Bool
is_counted rows k = not (is_other (filter (in_group k) rows))

unfoldable pub blocked_counts :
    (String → Bool) → List BlockingEvidence → Bool → RegressionBlockedCounts
blocked_counts is_case cases executions =
    let resolved = with_blocked_causes is_case cases in
    if executions
    then tally_executions resolved (group_keys resolved) empty_blocked_counts
    else tally resolved empty_blocked_counts

total-increment :
    (k : RegressionBlockedKind) (c : RegressionBlockedCounts)
    → total (increment k c) ≡ suc (total c)
total-increment RegressionBlockedKind.prerequisite c = omega arith
total-increment RegressionBlockedKind.failure c = omega arith
total-increment RegressionBlockedKind.cancelled c = omega arith
total-increment RegressionBlockedKind.unknown c = omega arith

tally_executions_lem :
    (rows : List Resolved) (ks : List String) (c : RegressionBlockedCounts)
    → total (tally_executions rows ks c) ≡ count (is_counted rows) ks + total c
unfolding tally_executions
tally_executions_lem rows [] c = omega arith
tally_executions_lem rows (k ∷ ks) c =
    let group = filter (in_group k) rows in
    by_test (is_other group) (execution_kind group) (tally_executions_lem rows ks c)
      (tally_executions_lem rows ks (increment (execution_kind group) c))
  where
    by_test :
        (b : Bool) (kind : RegressionBlockedKind)
        → total (tally_executions rows ks c) ≡ count (is_counted rows) ks + total c
        → total (tally_executions rows ks (increment kind c))
          ≡ count (is_counted rows) ks + total (increment kind c)
        → total (tally_executions rows ks (if b then c else increment kind c))
          ≡ (if not b then suc (count (is_counted rows) ks) else count (is_counted rows) ks)
            + total c
    by_test true kind h h' = h
    by_test false kind h h' = omega (arith, h', total-increment kind c)

pub count-executions :
    (is_case : String → Bool) (cases : List BlockingEvidence)
    → let rows = with_blocked_causes is_case cases in
      total (blocked_counts is_case cases true) ≡ count (is_counted rows) (group_keys rows)
unfolding blocked_counts
count-executions is_case cases = omega (
  arith,
  tally_executions_lem (with_blocked_causes is_case cases)
      (group_keys (with_blocked_causes is_case cases)) empty_blocked_counts,
)

module _ (is_case : String → Bool) (cases : List BlockingEvidence) where
  abbrev row_of : BlockingEvidence → Resolved
  row_of item = record { item = item; blocked_by = resolve is_case cases item }

  step_lem :
      (item : BlockingEvidence) (c : RegressionBlockedCounts)
      → total (if is_blocked item then add (resolve is_case cases item) c else c)
        ≡ (if is_blocked item then suc (total c) else total c)
  unfolding resolve
  step_lem item c = by_test (is_blocked item) _
    where
      by_test :
          (b : Bool) (r : RegressionBlocker)
          → total (if b then add (if b then some r else none) c else c)
            ≡ (if b then suc (total c) else total c)
      by_test true r = total-increment r.kind c
      by_test false r = refl

  tally_lem :
      (items : List BlockingEvidence) (c : RegressionBlockedCounts)
      → total (tally (map row_of items) c) ≡ count is_blocked items + total c
  unfolding tally
  tally_lem [] c = omega arith
  tally_lem (item ∷ items) c =
      tally_lem items (if is_blocked item then add (resolve is_case cases item) c else c)
      ∙ (ap (λ n. count is_blocked items + n) (step_lem item c)
          ∙ by_test (is_blocked item) (count is_blocked items) (total c))
    where
      by_test : (b : Bool) (n t : ℕ) → n + (if b then suc t else t) ≡ (if b then suc n else n) + t
      by_test true n t = omega arith
      by_test false n t = refl

-- The counts over results add up to the number of blocked results: each has a cause, and is counted
-- once.
pub total-blocked_counts :
    (is_case : String → Bool) (cases : List BlockingEvidence)
    → total (blocked_counts is_case cases false) ≡ count is_blocked cases
unfolding blocked_counts with_blocked_causes
total-blocked_counts is_case cases =
    omega (arith, tally_lem is_case cases cases empty_blocked_counts)

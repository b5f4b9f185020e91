-- ===== src/Harness/Progress.antt =====
-- The progress of a campaign that runs in Kubernetes, the class KubernetesProgress of
-- dashboard/apps/web/regression/core/kubernetes-progress.ts. An event is a JSON value: a field of
-- it is a natural number, a text, or anything else. The catalogues of cases and of their
-- descriptions are parameters, since they are tables that the repository keeps as data.
pub mod Bounds
pub mod Snapshot
pub mod Consistent
pub mod Tests
use aippliance_magic_stick.Prelude.{
  ℕ, suc, ◌+◌, ◌-◌, ◌*◌, ◌/◌, max, min, Bool, true, false, Option, none, some, List, [], ◌∷◌, ◌++◌,
  String, ◌&&◌, ◌||◌, not, if◌then◌else◌, or_option, or_else, ltb, leb, ◌==◌, length, all,
}
use Prim.Native.String
use aippliance_magic_stick.Prelude.Members.{member, add}
use aippliance_magic_stick.Prelude.Text.{
  str_eq, includes, codes, is_digit, is_lower, is_upper, is_run_id, take_text,
}
use aippliance_magic_stick.Shared.Blocked.{
  RegressionBlockedKind, RegressionBlockedCounts, empty_blocked_counts, increment,
  regression_blocked_kind,
}
use aippliance_magic_stick.Harness.Blocking.{Recorded, RegressionBlocker, checked_blocker}

pub data Field : Type 0 where
  number : ℕ → Field
  text : String → Field
  others : Field

pub data Outcome : Type 0 where
  passed failed blocked : Outcome

-- The fields of an event that some branch reads.
pub record ProgressEvent : Type 0 where
  pub version : Field
  pub event : String
  pub target_uid : Option String
  pub run_id : String
  pub phase : Field
  pub outcome : String
  pub step : String
  pub index : Field
  pub total : Field
  pub position : Field
  pub ids : Option (List Field)
  pub blocked_by : Option Recorded
  pub reason : Option String

pub record Counts : Type 0 where
  pub passed : ℕ
  pub failed : ℕ
  pub blocked : ℕ

-- The fields of the object. A set is the list of its members.
pub record KubernetesProgress : Type 0 where
  pub phases : List ℕ
  pub completed_phases : ℕ
  pub phase : Option ℕ
  pub step : String
  pub step_index : ℕ
  pub step_total : ℕ
  pub test_index : ℕ
  pub test_completed : ℕ
  pub test_total : ℕ
  pub current_test : String
  pub counts : Counts
  pub execution_blocked_counts : RegressionBlockedCounts
  pub ended : List ℕ
  pub owners : List String
  pub campaign_run_id : Option String
  pub target_uid : Option String

unfoldable pub count : Field → ℕ
count (number n) = if leb n 100000 then n else 0
count (text s) = 0
count others = 0

-- `outcomes.includes(s)`, with the outcome that it names.
unfoldable pub outcome_of : String → Option Outcome
outcome_of s =
    if str_eq s "Passed"
    then some Outcome.passed
    else (if str_eq s "Failed"
        then some Outcome.failed
        else (if str_eq s "Blocked" then some Outcome.blocked else none))

unfoldable pub new_progress : List ℕ → Option String → KubernetesProgress
new_progress phases target_uid = record {
  phases = phases;
  completed_phases = 0;
  phase = none;
  step = "";
  step_index = 0;
  step_total = 1;
  test_index = 0;
  test_completed = 0;
  test_total = 0;
  current_test = "";
  counts = record { passed = 0; failed = 0; blocked = 0 };
  execution_blocked_counts = empty_blocked_counts;
  ended = [];
  owners = [];
  campaign_run_id = none;
  target_uid = target_uid;
}

-- `a === b && b`: the same text, and not an empty one.
abbrev pub same_present : Option String → Option String → Bool
same_present (some a) (some b) = str_eq a b && not (str_eq b "")
same_present _ _ = false

abbrev pub add_owner : String → List String → List String
add_owner id owners = if includes owners id then owners else owners ++ (id ∷ [])

-- `/^[-a-z0-9]{1,40}$/`
unfoldable pub is_step : String → Bool
is_step s =
    let cs = codes s in
    ltb 0 (length cs)
    && leb (length cs) 40
    && all (λ (c : ℕ). is_lower c || is_digit c || c == b'-') cs

abbrev is_upper_digit : ℕ → Bool
is_upper_digit c = is_upper c || is_digit c

abbrev two_digits : List ℕ → Bool
two_digits (a ∷ b ∷ []) = is_digit a && is_digit b
two_digits _ = false

-- `[A-Z0-9]*-\d{2}$`
abbrev id_tail : List ℕ → Bool
id_tail [] = false
id_tail (c ∷ cs) = (c == b'-' && two_digits cs) || (is_upper_digit c && id_tail cs)

abbrev id_codes : List ℕ → Bool
id_codes (a ∷ b ∷ cs) = is_upper a && is_upper_digit b && id_tail cs
id_codes _ = false

-- `typeof id === 'string' && /^[A-Z][A-Z0-9]+-\d{2}$/.test(id)`
unfoldable pub is_case_id : Field → Bool
is_case_id (text s) = id_codes (codes s)
is_case_id (number n) = false
is_case_id others = false

abbrev pub kind_or : Option RegressionBlocker → Option String → RegressionBlockedKind
kind_or none reason = regression_blocked_kind reason
kind_or (some b) reason = b.kind

abbrev pub is_phase : List ℕ → Field → Bool
is_phase phases (number n) = member n phases
is_phase phases (text s) = false
is_phase phases others = false

abbrev phase_of : Field → ℕ
phase_of (number n) = n
phase_of (text s) = 0
phase_of others = 0

abbrev pub is_one : Field → Bool
is_one (number n) = n == 1
is_one (text s) = false
is_one others = false

abbrev pub is_blocked : Outcome → Bool
is_blocked Outcome.blocked = true
is_blocked _ = false

abbrev pub is_outcome : Option Outcome → Bool
is_outcome none = false
is_outcome (some o) = true

-- `this.counts[e.outcome]++`
abbrev pub count_one : Outcome → Counts → Counts
count_one Outcome.passed c = record c { passed = suc c.passed }
count_one Outcome.failed c = record c { failed = suc c.failed }
count_one Outcome.blocked c = record c { blocked = suc c.blocked }

abbrev pub are_ids : Option (List Field) → Bool
are_ids none = false
are_ids (some ids) = all is_case_id ids

-- The branches of `consume`, by the event.
unfoldable pub owner_start : ProgressEvent → KubernetesProgress → KubernetesProgress
owner_start e p = record p { owners = add_owner e.run_id p.owners }

unfoldable pub phase_start : ProgressEvent → KubernetesProgress → KubernetesProgress
phase_start e p = record p {
  phase = some (phase_of e.phase);
  step = "";
  step_index = 0;
  test_index = 0;
  test_completed = 0;
  test_total = 0;
  current_test = "";
}

unfoldable pub phase_end : ProgressEvent → KubernetesProgress → KubernetesProgress
phase_end e p =
    let ended = add (phase_of e.phase) p.ended in
    record p { ended = ended; completed_phases = length ended; step_index = 0; test_completed = 0 }

unfoldable pub step_start : ProgressEvent → KubernetesProgress → KubernetesProgress
step_start e p = record p {
  step = e.step;
  step_index = count e.index;
  step_total = max 1 (count e.total);
  test_index = 0;
  test_completed = 0;
  test_total = 0;
}

unfoldable pub campaign_end : ProgressEvent → KubernetesProgress → KubernetesProgress
campaign_end e p = record p { campaign_run_id = some e.run_id }

-- The conditions of those branches.
abbrev pub starts_owner : ProgressEvent → KubernetesProgress → Bool
starts_owner e p =
    str_eq e.event "owner-start"
    && same_present e.target_uid p.target_uid
    && is_run_id e.run_id
    && ltb (length p.owners) 1000

abbrev pub starts_phase : ProgressEvent → KubernetesProgress → Bool
starts_phase e p = str_eq e.event "phase-start" && is_phase p.phases e.phase

abbrev pub ends_phase : ProgressEvent → KubernetesProgress → Bool
ends_phase e p =
    str_eq e.event "phase-end" && is_phase p.phases e.phase && is_outcome (outcome_of e.outcome)

abbrev pub starts_step : ProgressEvent → Bool
starts_step e = str_eq e.event "step-start" && is_step e.step

abbrev pub is_test : ProgressEvent → Bool
is_test e = (str_eq e.event "test-start" || str_eq e.event "test-end") && are_ids e.ids

abbrev pub ends_campaign : ProgressEvent → Bool
ends_campaign e = str_eq e.event "campaign-end" && is_run_id e.run_id

module _ (is_case : String → Bool) (describe : String → String) where
  abbrev pub join_ids : List Field → String
  join_ids [] = ""
  join_ids (text id ∷ []) = String.◌++◌ id (String.◌++◌ ": " (describe id))
  join_ids (text id ∷ ids) =
      String.◌++◌ id (String.◌++◌ ": " (String.◌++◌ (describe id) (String.◌++◌ " " (join_ids ids))))
  join_ids (number n ∷ ids) = join_ids ids
  join_ids (others ∷ ids) = join_ids ids

  abbrev pub count_test : Option Outcome → ProgressEvent → KubernetesProgress → KubernetesProgress
  count_test none e p = p
  count_test (some o) e p =
      let c = count_one o p.counts in
      let k = kind_or (checked_blocker is_case e.blocked_by) e.reason in
      let b = p.execution_blocked_counts in
      record p {
        test_completed = p.test_index;
        counts = c;
        execution_blocked_counts = if is_blocked o then increment k b else b;
      }

  unfoldable pub test_event : Bool → ProgressEvent → KubernetesProgress → KubernetesProgress
  test_event is_end e p =
      let shown : KubernetesProgress = record p {
        test_index = count e.position;
        test_total = count e.total;
        current_test = take_text 1600 (join_ids (or_else e.ids []));
      } in
      if is_end then count_test (outcome_of e.outcome) e shown else shown

  unfoldable pub consume : ProgressEvent → KubernetesProgress → KubernetesProgress
  consume e p =
      if not (is_one e.version)
      then p
      else (if starts_owner e p
          then owner_start e p
          else (if starts_phase e p
              then phase_start e p
              else (if ends_phase e p
                  then phase_end e p
                  else (if starts_step e
                      then step_start e p
                      else (if is_test e
                          then test_event (str_eq e.event "test-end") e p
                          else (if ends_campaign e then campaign_end e p else p))))))

  -- The state after a sequence of events.
  abbrev pub consume_all : List ProgressEvent → KubernetesProgress → KubernetesProgress
  consume_all [] p = p
  consume_all (e ∷ es) p = consume_all es (consume e p)

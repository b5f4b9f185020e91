-- ===== src/Harness/Progress/Consistent.antt =====
-- The invariant of KubernetesProgress (kubernetes-progress.ts): what its counters and its sets say.
use aippliance_magic_stick.Prelude.{
  ℕ, suc, ◌≤◌, Bool, true, false, Option, none, some, List, [], ◌∷◌, String, ◌&&◌, not, ltb, length,
  length-append, ◌≡◌, refl, ap, ◌∙◌, if◌then◌else◌, if_holds, arith,
}
use aippliance_magic_stick.Prelude.Text.{str_eq, is_run_id}
use aippliance_magic_stick.Prelude.Members.{member, Distinct, Within, add-Distinct, add-Within}
use aippliance_magic_stick.Shared.Blocked.{
  RegressionBlockedKind, RegressionBlockedCounts, increment, total,
}
use aippliance_magic_stick.Harness.Progress.{
  Field, number, text, others, Outcome, ProgressEvent, KubernetesProgress, Counts, new_progress,
  owner_start, phase_start, phase_end, step_start, test_event, consume, consume_all, outcome_of,
  campaign_end, is_one, same_present, starts_owner, starts_phase, ends_phase, starts_step, is_test,
  ends_campaign, is_outcome, is_phase, add_owner, count_test, count_one, is_blocked,
}

-- The counters agree with the sets, the sets stay within their bounds, each phase that ended is
-- one of the campaign's, and each blocked execution has one kind.
pub record IsConsistent (p : KubernetesProgress) : Type 0 where
  pub completed : p.completed_phases ≡ length p.ended
  pub distinct : Distinct p.ended
  pub within : Within p.ended p.phases
  pub steps : 1 ≤ p.step_total
  pub owners : length p.owners ≤ 1000
  pub kinds : total p.execution_blocked_counts ≡ p.counts.blocked

pub new_progress-IsConsistent :
    (phases : List ℕ) (uid : Option String) → IsConsistent (new_progress phases uid)
unfolding new_progress
new_progress-IsConsistent phases uid = record {
  completed = refl;
  distinct = tt;
  within = tt;
  steps = omega arith;
  owners = omega arith;
  kinds = omega arith;
}

total-increment :
    (k : RegressionBlockedKind) (c : RegressionBlockedCounts)
    → total (increment k c) ≡ suc (total c)
total-increment k c = ground arith

add_owner_bound :
    (id : String) (owners : List String)
    → length owners ≤ 1000
    → ltb (length owners) 1000 ≡ true
    → length (add_owner id owners) ≤ 1000
add_owner_bound id owners h lt = ground (arith, length-append owners (id ∷ []))

total-count_one :
    (o : Outcome) (k : RegressionBlockedKind) (c : Counts) (b : RegressionBlockedCounts)
    → total b ≡ c.blocked
    → total (if is_blocked o then increment k b else b) ≡ (count_one o c).blocked
total-count_one Outcome.passed k c b h = h
total-count_one Outcome.failed k c b h = h
total-count_one Outcome.blocked k c b h = total-increment k b ∙ ap suc h

count_test-IsConsistent :
    (is_case : String → Bool) (describe : String → String) (o : Option Outcome) (e : ProgressEvent)
    (p : KubernetesProgress)
    → IsConsistent p
    → IsConsistent (count_test is_case describe o e p)
count_test-IsConsistent is_case describe none e p v = v
count_test-IsConsistent is_case describe (some o) e p v = record {
  completed = v.completed;
  distinct = v.distinct;
  within = v.within;
  steps = v.steps;
  owners = v.owners;
  kinds = total-count_one o _ p.counts p.execution_blocked_counts v.kinds;
}

module _ (p : KubernetesProgress) (v : IsConsistent p) (e : ProgressEvent) where
  owner_start-IsConsistent : ltb (length p.owners) 1000 ≡ true → IsConsistent (owner_start e p)
  unfolding owner_start
  owner_start-IsConsistent lt = record {
    completed = v.completed;
    distinct = v.distinct;
    within = v.within;
    steps = v.steps;
    owners = add_owner_bound e.run_id p.owners v.owners lt;
    kinds = v.kinds;
  }

  phase_start-IsConsistent : IsConsistent (phase_start e p)
  unfolding phase_start
  phase_start-IsConsistent = ground arith

  phase_end-IsConsistent :
      (n : ℕ) → e.phase ≡ number n → member n p.phases ≡ true → IsConsistent (phase_end e p)
  unfolding phase_end
  phase_end-IsConsistent n h m = record {
    completed = refl;
    distinct = add-Distinct _ p.ended v.distinct;
    within = rw h (add-Within n p.ended p.phases m v.within);
    steps = v.steps;
    owners = v.owners;
    kinds = v.kinds;
  }

  step_start-IsConsistent : IsConsistent (step_start e p)
  unfolding step_start
  step_start-IsConsistent = ground arith

  campaign_end-IsConsistent : IsConsistent (campaign_end e p)
  unfolding campaign_end
  campaign_end-IsConsistent = ground arith

  module _ (is_case : String → Bool) (describe : String → String) where
    shown-IsConsistent : IsConsistent (test_event is_case describe false e p)
    unfolding test_event
    shown-IsConsistent = ground arith

    test_event-IsConsistent :
        (is_end : Bool) → IsConsistent (test_event is_case describe is_end e p)
    unfolding test_event
    test_event-IsConsistent false = shown-IsConsistent
    test_event-IsConsistent true =
        count_test-IsConsistent is_case describe (outcome_of e.outcome) e _ shown-IsConsistent

-- A phase that the campaign has is a number.
is_phase-holds :
    (phases : List ℕ) (f : Field)
    → is_phase phases f ≡ true
    → (n : ℕ) × (f ≡ number n) × (member n phases ≡ true)
is_phase-holds phases (number n) h = (n, refl, h)
is_phase-holds phases (text s) h = cc
is_phase-holds phases others h = cc

last_of_four : (a b c d : Bool) → (a && b && c && d) ≡ true → d ≡ true
last_of_four a b c d h = ground arith

middle_of_three : (a b c : Bool) → (a && b && c) ≡ true → b ≡ true
middle_of_three a b c h = ground arith

starts_owner-room :
    (e : ProgressEvent) (p : KubernetesProgress)
    → starts_owner e p ≡ true
    → ltb (length p.owners) 1000 ≡ true
starts_owner-room e p h =
    last_of_four (str_eq e.event "owner-start") (same_present e.target_uid p.target_uid)
      (is_run_id e.run_id) (ltb (length p.owners) 1000) h

ends_phase-known :
    (e : ProgressEvent) (p : KubernetesProgress)
    → ends_phase e p ≡ true
    → is_phase p.phases e.phase ≡ true
ends_phase-known e p h =
    middle_of_three (str_eq e.event "phase-end") (is_phase p.phases e.phase)
      (is_outcome (outcome_of e.outcome)) h

module _ (is_case : String → Bool) (describe : String → String) where
  pub consume-IsConsistent :
      (e : ProgressEvent) (p : KubernetesProgress)
      → IsConsistent p
      → IsConsistent (consume is_case describe e p)
  unfolding consume
  consume-IsConsistent e p v =
      let or_not = if_holds IsConsistent in
      let last : KubernetesProgress = if ends_campaign e then campaign_end e p else p in
      let test : KubernetesProgress =
        if is_test e then test_event is_case describe (str_eq e.event "test-end") e p else last in
      let step : KubernetesProgress = if starts_step e then step_start e p else test in
      let ended : KubernetesProgress = if ends_phase e p then phase_end e p else step in
      let started : KubernetesProgress = if starts_phase e p then phase_start e p else ended in
      let owner : KubernetesProgress = if starts_owner e p then owner_start e p else started in
      or_not (not (is_one e.version)) p owner (λ _. v)
        (or_not (starts_owner e p) (owner_start e p) started
          (λ t. owner_start-IsConsistent p v e (starts_owner-room e p t))
          (or_not (starts_phase e p) (phase_start e p) ended (λ _. phase_start-IsConsistent p v e)
            (or_not (ends_phase e p) (phase_end e p) step
              (λ t. by_phase (is_phase-holds p.phases e.phase (ends_phase-known e p t)))
              (or_not (starts_step e) (step_start e p) test (λ _. step_start-IsConsistent p v e)
                (or_not (is_test e) _ last
                  (λ _. test_event-IsConsistent p v e is_case describe (str_eq e.event "test-end"))
                  (or_not (ends_campaign e) (campaign_end e p) p
                    (λ _. campaign_end-IsConsistent p v e) v))))))
    where
      by_phase :
          (n : ℕ) × (e.phase ≡ number n) × (member n p.phases ≡ true) → IsConsistent (phase_end e p)
      by_phase (n, h, m) = phase_end-IsConsistent p v e n h m

  -- After any sequence of events the counters agree with the sets: the completed phases are the
  -- members of the set of ended phases, which has no repetition and holds only phases of the
  -- campaign; at most a thousand owners are kept; and the kinds of the blocked executions sum to
  -- the number of blocked executions.
  pub consume_all-IsConsistent :
      (es : List ProgressEvent) (p : KubernetesProgress)
      → IsConsistent p
      → IsConsistent (consume_all is_case describe es p)
  consume_all-IsConsistent [] p v = v
  consume_all-IsConsistent (e ∷ es) p v =
      consume_all-IsConsistent es (consume is_case describe e p) (consume-IsConsistent e p v)

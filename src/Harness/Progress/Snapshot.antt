-- ===== src/Harness/Progress/Snapshot.antt =====
-- What KubernetesProgress (kubernetes-progress.ts) reports, and the share of the work that is done.
use aippliance_magic_stick.Prelude.{
  ℕ, ◌+◌, ◌-◌, ◌*◌, ◌/◌, min, Bool, Option, List, String, ◌&&◌, if◌then◌else◌, ◌==◌, length,
}
use aippliance_magic_stick.Shared.Blocked.{RegressionBlockedCounts}
use aippliance_magic_stick.Harness.Progress.{KubernetesProgress, Counts}

-- `stage` of `snapshot`, a fraction as numerator and denominator, at most one: `min(1, stage)`.
-- The source computes with floating-point numbers, the model with exact fractions.
unfoldable pub stage_parts : KubernetesProgress → ℕ × ℕ
stage_parts p =
    if p.test_total == 0
    then (min (p.step_index - 1) p.step_total, p.step_total)
    else (let n = p.step_index * p.test_total + min p.test_completed p.test_total - p.test_total in
        let d = p.test_total * p.step_total in (min n d, d))

-- `fraction`.
unfoldable pub fraction_parts : KubernetesProgress → ℕ × ℕ
fraction_parts p =
    let s = stage_parts p in
    let total = length p.phases in
    if total == 0 then s else (p.completed_phases * s.1 + s.0, s.1 * total)

unfoldable pub percent : Bool → KubernetesProgress → ℕ
percent finished p =
    let f = fraction_parts p in
    if finished && p.completed_phases == length p.phases then 100 else min 99 (100 * f.0 / f.1)

-- What `snapshot(finished)` returns.
pub record Snapshot : Type 0 where
  pub percent : ℕ
  pub completed_phases : ℕ
  pub total_phases : ℕ
  pub current_phase : Option ℕ
  pub step : String
  pub current_test : String
  pub test_index : ℕ
  pub test_total : ℕ
  pub execution_counts : Counts
  pub execution_blocked_counts : RegressionBlockedCounts
  pub owned_run_ids : List String

unfoldable pub snapshot : Bool → KubernetesProgress → Snapshot
snapshot finished p = record {
  percent = percent finished p;
  completed_phases = p.completed_phases;
  total_phases = length p.phases;
  current_phase = p.phase;
  step = p.step;
  current_test = p.current_test;
  test_index = p.test_index;
  test_total = p.test_total;
  execution_counts = p.counts;
  execution_blocked_counts = p.execution_blocked_counts;
  owned_run_ids = p.owners;
}

-- ===== src/Harness/Progress/Tests.antt =====
-- Examples for kubernetes-progress.ts.
use aippliance_magic_stick.Prelude.{
  ◌≤◌, Bool, true, false, none, List, [], ◌∷◌, String, length, All, ◌≡◌, refl,
}
use aippliance_magic_stick.Prelude.Members.{member, add}
use aippliance_magic_stick.Harness.Progress.{
  number, text, others, ProgressEvent, KubernetesProgress, new_progress, consume, consume_all,
  outcome_of, phase_start, phase_end, step_start, count, is_step, is_case_id,
}
use aippliance_magic_stick.Harness.Progress.Snapshot.{
  percent, snapshot, stage_parts, fraction_parts,
}
use aippliance_magic_stick.Harness.Progress.Consistent.{
  IsConsistent, new_progress-IsConsistent, consume_all-IsConsistent,
}
use aippliance_magic_stick.Harness.Progress.Bounds.{percent_bounds}

abbrev blank : ProgressEvent
blank = record {
  version = number 1;
  event = "";
  target_uid = none;
  run_id = "";
  phase = others;
  outcome = "";
  step = "";
  index = others;
  total = others;
  position = others;
  ids = none;
  blocked_by = none;
  reason = none;
}

abbrev started : ProgressEvent
started = record blank { event = "phase-start"; phase = number 2 }

abbrev stepped : ProgressEvent
stepped = record blank { event = "step-start"; step = "checks"; index = number 2; total = number 4 }

abbrev ended : ProgressEvent
ended = record blank { event = "phase-end"; phase = number 2; outcome = "Failed" }

abbrev any_case : String → Bool
any_case s = true

abbrev same_text : String → String
same_text s = s

abbrev after : List ProgressEvent → KubernetesProgress
after es = consume_all any_case same_text es (new_progress (2 ∷ 3 ∷ []) none)

-- One of four steps done in the first of two phases: an eighth.
half_way : percent false (after (started ∷ stepped ∷ [])) ≡ 12
unfolding percent fraction_parts stage_parts consume new_progress phase_start step_start count
    is_step
half_way = refl

one_phase : percent true (after (started ∷ stepped ∷ ended ∷ ended ∷ [])) ≡ 50
unfolding percent fraction_parts stage_parts consume new_progress phase_start phase_end step_start
    count is_step outcome_of add
one_phase = refl

case_ids : is_case_id (text "HAR-10") ≡ true
unfolding is_case_id
case_ids = refl

after-IsConsistent : IsConsistent (after (started ∷ ended ∷ []))
after-IsConsistent =
    consume_all-IsConsistent any_case same_text (started ∷ ended ∷ [])
      (new_progress (2 ∷ 3 ∷ []) none) (new_progress-IsConsistent (2 ∷ 3 ∷ []) none)

consume_all-IsConsistent_example : IsConsistent (after (started ∷ stepped ∷ ended ∷ []))
consume_all-IsConsistent_example =
    consume_all-IsConsistent any_case same_text (started ∷ stepped ∷ ended ∷ [])
      (new_progress (2 ∷ 3 ∷ []) none) (new_progress-IsConsistent (2 ∷ 3 ∷ []) none)

percent_bounds_example :
    ((snapshot true (after (started ∷ ended ∷ []))).percent ≤ 100)
    × ((snapshot true (after (started ∷ ended ∷ []))).percent ≡ 100
        → (true ≡ true)
          × All
              (λ n. member n (after (started ∷ ended ∷ [])).ended ≡ true)
              (after (started ∷ ended ∷ [])).phases)
    × (true ≡ true
        → length (after (started ∷ ended ∷ [])).ended ≡ length (after (started ∷ ended ∷ [])).phases
        → (snapshot true (after (started ∷ ended ∷ []))).percent ≡ 100)
percent_bounds_example = percent_bounds true (after (started ∷ ended ∷ [])) after-IsConsistent

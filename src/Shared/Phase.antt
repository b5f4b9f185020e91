-- ===== src/Shared/Phase.antt =====
-- The phases that a resource reports, dashboard/packages/core/src/index.ts: phaseTone,
-- phaseInProgress, phaseNeedsAttention, progressForPhase. `toLowerCase` is a parameter.
use aippliance_magic_stick.Prelude.{
  ℕ, Bool, true, false, Option, some, List, [], ◌∷◌, String, not, ◌||◌, if◌then◌else◌, or_else, All,
  ltb, ◌≡◌, refl, subst, sym, arith, Bool-cases, inl, inr,
}
use aippliance_magic_stick.Prelude.Text.{str_eq, str_eq_iff, includes, truthy}

pub data Tone : Type 0 where
  good bad warn neutral : Tone

pub record ProgressState : Type 0 where
  pub value : ℕ
  pub label : String
  pub tone : Tone
  pub indeterminate : Bool

abbrev pub good_phases : List String
good_phases =
    "ready" ∷ "active" ∷ "enabled" ∷ "completed" ∷ "succeeded" ∷ "passed" ∷ "registered"
    ∷ "accepted" ∷ "configured" ∷ []

abbrev pub warn_phases : List String
warn_phases =
    "installing" ∷ "starting" ∷ "waitingforpod" ∷ "reconciling" ∷ "pending" ∷ "progressing"
    ∷ "blocked" ∷ "recovering" ∷ "cancelling" ∷ []

-- The phases of `phaseInProgress`.
abbrev pub progress_phases : List String
progress_phases =
    "requested" ∷ "detected" ∷ "installing" ∷ "waitingformodules" ∷ "waitingforcrds"
    ∷ "waitingforgpu" ∷ "waitingforpod" ∷ "starting" ∷ "reconciling" ∷ "removing" ∷ "progressing"
    ∷ []

abbrev pub attention_phases : List String
attention_phases = "degraded" ∷ "failed" ∷ "error" ∷ "unsupported" ∷ "conflict" ∷ []

abbrev pub step : ℕ → String → Bool → ProgressState
step value label indeterminate = record {
  value = value;
  label = label;
  tone = Tone.warn;
  indeterminate = indeterminate;
}

-- `message || phase || fallback`
abbrev pub first_text : String → String → String
first_text a b = if truthy a then a else b

-- progressForPhase of a phase in lower case; `phase` is the phase as reported, empty if there is none.
unfoldable pub progress_of : String → String → Bool → String → ProgressState
progress_of normalized phase enabled message =
    if includes ("ready" ∷ "active" ∷ "completed" ∷ "succeeded" ∷ []) normalized
    then record { value = 100; label = "Ready"; tone = Tone.good; indeterminate = false }
    else (if str_eq "installing" normalized
        then step 85 "Waiting for hardware readiness" false
        else (if str_eq "waitingformodules" normalized
            then step 35 "Waiting for dependencies" false
            else (if str_eq "waitingforcrds" normalized
                then step 45 "Waiting for CRDs" false
                else (if str_eq "waitingforgpu" normalized
                    then step 55 "Waiting for GPU" false
                    else (if str_eq "waitingforpod" normalized
                        then step 0 "Waiting for model Pod" true
                        else (if str_eq "starting" normalized
                            then step 85 "Starting model runtime" true
                            else (if str_eq "reconciling" normalized
                                then step 70 "Reconciling" false
                                else (if str_eq "removing" normalized
                                    then step 65 "Removing" false
                                    else (if includes attention_phases normalized
                                        then record {
                                          value = 100;
                                          label =
                                              first_text message
                                                (first_text phase "Needs attention");
                                          tone = Tone.bad;
                                          indeterminate = false;
                                        }
                                        else (if includes ("disabled" ∷ "suspended" ∷ []) normalized
                                              || not enabled
                                            then record {
                                              value = 0;
                                              label =
                                                  if str_eq "suspended" normalized
                                                  then "Suspended"
                                                  else "Disabled";
                                              tone = Tone.neutral;
                                              indeterminate = false;
                                            }
                                            else step 20 (first_text phase "Requested")
                                                false))))))))))

module _ (to_lower_case : String → String) where
  -- `String(phase ?? '').toLowerCase()`
  abbrev pub normalized : Option String → String
  normalized phase = to_lower_case (or_else phase "")

  unfoldable pub phase_tone : Option String → Tone
  phase_tone phase =
      if includes good_phases (normalized phase)
      then Tone.good
      else (if includes ("failed" ∷ "error" ∷ "degraded" ∷ []) (normalized phase)
          then Tone.bad
          else (if includes warn_phases (normalized phase) then Tone.warn else Tone.neutral))

  unfoldable pub phase_in_progress : Option String → Bool
  phase_in_progress phase = includes progress_phases (normalized phase)

  unfoldable pub phase_needs_attention : Option String → Bool
  phase_needs_attention phase =
      includes attention_phases (normalized phase) || phase_in_progress (some (normalized phase))

  unfoldable pub progress_for_phase : Option String → Bool → String → ProgressState
  progress_for_phase phase enabled message =
      progress_of (normalized phase) (or_else phase "") enabled message

-- What holds of every listed text holds of a text that the list includes.
includes_lem :
    (P : String → Type 0) (xs : List String) (s : String) → All P xs → includes xs s ≡ true → P s
includes_lem P [] s h i = absurd (ground (arith, i))
includes_lem P (x ∷ xs) s h i = elim (Bool-cases (str_eq x s)) [
  | inl e ↦ subst P ((str_eq_iff x s).0 e) h.0
  | inr e ↦ includes_lem P xs s h.1 (ground (arith, i, e))
]

-- A phase in progress is shown as a warning below the full bar, while the resource is enabled.
pub progress-of_in_progress :
    (to_lower_case : String → String) (phase : Option String) (message : String)
    → phase_in_progress to_lower_case phase ≡ true
    → let p = progress_for_phase to_lower_case phase true message in
      (p.tone ≡ Tone.warn) × (ltb p.value 100 ≡ true)
unfolding phase_in_progress progress_for_phase progress_of
progress-of_in_progress to_lower_case phase message h =
    includes_lem
      (λ s.
        let p = progress_of s (or_else phase "") true message in
        (p.tone ≡ Tone.warn) × (ltb p.value 100 ≡ true))
      progress_phases (normalized to_lower_case phase)
      (
        (refl, refl),
        (
          (refl, refl),
          (
            (refl, refl),
            (
              (refl, refl),
              (
                (refl, refl),
                (
                  (refl, refl),
                  (
                    (refl, refl),
                    ((refl, refl), ((refl, refl), ((refl, refl), ((refl, refl), tt)))),
                  ),
                ),
              ),
            ),
          ),
        ),
      )
      h

-- A phase that needs attention and is not in progress is shown as a full bar in the tone of a fault,
-- enabled or not, provided that `toLowerCase` leaves a lower-case text as it is.
pub progress-of_attention :
    (to_lower_case : String → String)
    → ((s : String) → to_lower_case (to_lower_case s) ≡ to_lower_case s)
    → (phase : Option String) (enabled : Bool) (message : String)
    → phase_needs_attention to_lower_case phase ≡ true
    → phase_in_progress to_lower_case phase ≡ false
    → let p = progress_for_phase to_lower_case phase enabled message in
      (p.tone ≡ Tone.bad) × (p.value ≡ 100)
unfolding phase_needs_attention phase_in_progress progress_for_phase progress_of
progress-of_attention to_lower_case idem phase enabled message h k =
    includes_lem
      (λ s.
        let p = progress_of s (or_else phase "") enabled message in
        (p.tone ≡ Tone.bad) × (p.value ≡ 100))
      attention_phases (normalized to_lower_case phase)
      ((refl, refl), ((refl, refl), ((refl, refl), ((refl, refl), ((refl, refl), tt)))))
      (left _ _ h
        (subst (λ s. includes progress_phases s ≡ false) (sym (idem (or_else phase ""))) k))
  where
    left : (a b : Bool) → a || b ≡ true → b ≡ false → a ≡ true
    left a b h k = ground (arith, h, k)

-- A phase that has the tone of a fault has a progress in the tone of a fault, enabled or not.
pub phase_tone-of_bad :
    (to_lower_case : String → String) (phase : Option String) (enabled : Bool) (message : String)
    → phase_tone to_lower_case phase ≡ Tone.bad
    → (progress_for_phase to_lower_case phase enabled message).tone ≡ Tone.bad
unfolding phase_tone progress_for_phase progress_of
phase_tone-of_bad to_lower_case phase enabled message h =
    includes_lem (λ s. (progress_of s (or_else phase "") enabled message).tone ≡ Tone.bad)
      ("failed" ∷ "error" ∷ "degraded" ∷ []) (normalized to_lower_case phase)
      (refl, (refl, (refl, tt))) (test _ _ _ h)
  where
    test :
        (g b w : Bool)
        → (if g
            then Tone.good
            else (if b then Tone.bad else (if w then Tone.warn else Tone.neutral)))
          ≡ Tone.bad
        → b ≡ true
    test g b w h = ground (arith, h)

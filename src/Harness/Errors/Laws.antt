-- ===== src/Harness/Errors/Laws.antt =====
-- What the error names, and the errors that pass through atStage, keep (errors.ts).
use aippliance_magic_stick.Prelude.{◌≡◌, refl, ap, Option, none, some, or_else, List, [], ◌∷◌, ◌∙◌}
use aippliance_magic_stick.Prelude.Result.{Result, err, Action, handle}
use aippliance_magic_stick.Harness.Errors.{
  Stage, Thrown, HarnessError, harness, or_stage, staged, at_stage,
}
use aippliance_magic_stick.Harness.Errors.Codes.{ReasonCode, reason_key, reason_of}

-- The code that a reason's spelling names is the reason itself, so no two reasons share a spelling.
pub reason_of-reason_key : (c : ReasonCode) → reason_of (reason_key c) ≡ some c
unfolding reason_of
reason_of-reason_key ReasonCode.config = refl
reason_of-reason_key _ = refl

-- Nested calls of atStage: the innermost stage, and those around it, the outer ones first.
abbrev pub nested : {S A : Type 0} → Stage → List Stage → Action Thrown S A → Action Thrown S A
nested inner [] m = at_stage inner m
nested inner (outer ∷ stages) m = at_stage outer (nested inner stages m)

-- An error that passed through stages of which the innermost is given.
abbrev pub Passed : {S A : Type 0} → HarnessError → Stage → Result Thrown A × S → S → Type 0
Passed e inner r s =
    (e' : HarnessError) × (r ≡ (err (harness e'), s))
    × (e'.code ≡ e.code)
    × (e'.outcome ≡ e.outcome)
    × (e'.stage ≡ some (or_else e.stage inner))

or_stage_lem :
    (stage : Stage) (e : HarnessError)
    → (e' : HarnessError) × (staged stage (harness e) ≡ harness e')
      × (e'.code ≡ e.code)
      × (e'.outcome ≡ e.outcome)
      × (e'.stage ≡ some (or_else e.stage stage))
unfolding staged
or_stage_lem stage e = (_, refl, refl, refl, by_stage e.stage)
  where
    by_stage : (o : Option Stage) → or_stage o stage ≡ some (or_else o stage)
    by_stage none = refl
    by_stage (some s) = refl

module _ {S A : Type 0} (m : Action Thrown S A) (e : HarnessError) (s t : S)
    (thrown : m s ≡ (err (harness e), t)) (inner : Stage) where
  -- However atStage is nested, a HarnessError that the action throws comes out as a HarnessError
  -- with its code and its outcome, on the state that the action left, and its stage is the one that
  -- it had, or else the innermost one.
  pub nested-Passed : (stages : List Stage) → Passed e inner (nested inner stages m s) t
  unfolding at_stage
  nested-Passed [] =
      let (e', same, code, outcome, stage) = or_stage_lem inner e in
      (
        e',
        ap (handle (λ x u. (err (staged inner x), u))) thrown ∙ ap (λ x. (err x, t)) same,
        code,
        outcome,
        stage,
      )
  nested-Passed (outer ∷ stages) =
      let (x, from, code, outcome, stage) = nested-Passed stages in
      let (e', same, code', outcome', stage') = or_stage_lem outer x in
      (
        e',
        ap (handle (λ y u. (err (staged outer y), u))) from ∙ ap (λ y. (err y, t)) same,
        code' ∙ code,
        outcome' ∙ outcome,
        stage' ∙ ap (λ o. some (or_else o outer)) stage,
      )

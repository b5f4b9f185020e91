-- ===== src/Harness/Errors/Tests.antt =====
-- Examples for errors.ts.
use aippliance_magic_stick.Prelude.{refl, none, ◌∷◌, []}
use aippliance_magic_stick.Prelude.Result.{Action, throw}
use aippliance_magic_stick.Harness.Errors.{
  Outcome, ReasonCode, Stage, Thrown, HarnessError, harness, new_error,
}
use aippliance_magic_stick.Harness.Errors.Laws.{nested, Passed, nested-Passed}

abbrev error : HarnessError
error = new_error ReasonCode.api Outcome.failed none none

abbrev refused : Action Thrown (Unit {0}) (Unit {0})
refused = throw (harness error)

nested-Passed_example :
    Passed error Stage.model_ready (nested Stage.model_ready (Stage.cleanup ∷ []) refused tt) tt
nested-Passed_example =
    nested-Passed refused error tt tt refl Stage.model_ready (Stage.cleanup ∷ [])

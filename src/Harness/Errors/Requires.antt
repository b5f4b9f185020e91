-- ===== src/Harness/Errors/Requires.antt =====
-- What holds of a result behind a check of errors.ts: the check has passed.
use aippliance_magic_stick.Prelude.{Bool, true, false, ◌≡◌, refl}
use aippliance_magic_stick.Prelude.Result.{Action, ◌>>◌}
use aippliance_magic_stick.Prelude.Keeps.{Returns}
use aippliance_magic_stick.Harness.Errors.{ReasonCode, Thrown, require_safe, require_proof}

pub Returns-require :
    {S A : Type 0} (Q : A → S → Type 0) (b : Bool) (code : ReasonCode) (k : Action Thrown S A)
    (s : S)
    → (b ≡ true → Returns Q (k s))
    → Returns Q ((require_safe b code >> k) s)
Returns-require Q true code k s h = h refl
Returns-require Q false code k s h = tt

pub Returns-proof :
    {S A : Type 0} (Q : A → S → Type 0) (b : Bool) (code : ReasonCode) (k : Action Thrown S A)
    (s : S)
    → (b ≡ true → Returns Q (k s))
    → Returns Q ((require_proof b code >> k) s)
Returns-proof Q true code k s h = h refl
Returns-proof Q false code k s h = tt

-- ===== src/Harness/OwnedModel/Keeps.antt =====
-- The requests of OwnedModelClient (owned-model.ts) leave the object itself alone.
use aippliance_magic_stick.Prelude.{Bool, String, not, ltb}
use aippliance_magic_stick.Prelude.Result.{Result, Action, throw, gets, lift}
use aippliance_magic_stick.Prelude.Keeps.{
  Keeps, Keeps-pure, Keeps-throw, Keeps-bind, Keeps-then, Keeps-try_catch,
}
use aippliance_magic_stick.Harness.Errors.{
  ReasonCode, Thrown, harness, other, of_code, require_safe,
}
use aippliance_magic_stick.Harness.OwnedModel.{Js, Client, ModelActivation}
use aippliance_magic_stick.Harness.OwnedModel.Fence.{
  Method, Call, Response, Ports, Cell, fence, checked, is_rejected, is_success, world,
  guard_unless_get, transport,
}
use aippliance_magic_stick.Harness.OwnedModel.Methods.{Reader, as_api, post_action}

module _ {W : Type 0} (js : Js) (ports : Ports W) (reader : Reader) where
  module _ (P : Client → Type 0) where
    abbrev pub Mine : Cell W → Type 0
    Mine c = P c.client

    Keeps-world : {A : Type 0} (m : Action Thrown W A) → Keeps Mine (world js ports m)
    Keeps-world m = record { at = λ c h. h }

    Keeps-guard : (m : Method) → Keeps Mine (guard_unless_get js ports m)
    Keeps-guard Method.get = Keeps-pure Mine tt
    Keeps-guard Method.post = Keeps-world ports.assert_mutation_allowed
    Keeps-guard Method.put = Keeps-world ports.assert_mutation_allowed
    Keeps-guard Method.another = Keeps-world ports.assert_mutation_allowed

    Keeps-safe : (b : Bool) (code : ReasonCode) → Keeps Mine (require_safe {S = Cell W} b code)
    Keeps-safe b code = record { at = λ c h. h }

    Keeps-lift : {A : Type 0} (r : Result Thrown A) → Keeps Mine (lift {S = Cell W} r)
    Keeps-lift r = record { at = λ c h. h }

    Keeps-checked : (r : Call) (x : Response) → Keeps Mine (checked js ports r x)
    Keeps-checked r x =
        Keeps-then Mine _ _ (Keeps-safe (not (is_rejected js ports r x)) ReasonCode.api) (
          Keeps-then Mine _ _ (Keeps-safe (is_success js ports x) ReasonCode.api) (
            Keeps-then Mine _ _ (Keeps-safe (ltb x.length 8388608) ReasonCode.api)
              (Keeps-pure Mine x)))

    pub Keeps-transport : (r : Call) → Keeps Mine (transport js ports r)
    unfolding transport
    Keeps-transport r =
        Keeps-bind Mine (gets (λ (c : Cell W). c.client)) _ (record { at = λ c h. h })
          (λ client. Keeps-then Mine _ _ (Keeps-lift (fence js client ports.base_origin r)) (
            Keeps-then Mine _ _ (Keeps-guard r.method) (
              Keeps-bind Mine _ _
                (Keeps-try_catch Mine (world js ports (ports.fetch r))
                  (λ e. throw (of_code ReasonCode.api)) (Keeps-world (ports.fetch r))
                  (λ e. Keeps-throw Mine (of_code ReasonCode.api)))
                (Keeps-checked r))))

    pub Keeps-as_api : {A : Type 0} (e : Thrown) → Keeps Mine (as_api {S = Cell W} {A = A} e)
    Keeps-as_api (harness e) = Keeps-throw Mine (harness e)
    Keeps-as_api other = Keeps-throw Mine (of_code ReasonCode.api)

    pub Keeps-post_action :
        (client : Client) (current : ModelActivation) (suffix : String)
        → Keeps Mine (post_action js ports reader client current suffix)
    Keeps-post_action client current suffix =
        Keeps-bind Mine _ (λ response. lift (reader.activated response)) (Keeps-transport _)
          (λ response. Keeps-lift (reader.activated response))

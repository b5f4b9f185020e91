-- ===== src/Harness/OwnedModel/Methods.antt =====
-- The methods of OwnedModelClient (owned-model.ts). Reading a response as JSON is a parameter.
use aippliance_magic_stick.Prelude.{
  ℕ, ◌+◌, Bool, true, false, Option, none, some, List, String, ◌&&◌, not, if◌then◌else◌, is_some,
  or_else, ltb, leb, ◌==◌,
}
use aippliance_magic_stick.Prelude.Result.{
  Result, ok, err, Action, pure, throw, gets, lift, modify, try_catch, ◌>>=◌, ◌>>◌,
}
use aippliance_magic_stick.Prelude.Text.{str_eq, same_text, truthy}
use aippliance_magic_stick.Harness.Errors.{
  ReasonCode, Stage, Outcome, Thrown, harness, other, new_error, of_code, require_safe,
}
use aippliance_magic_stick.Harness.OwnedModel.{
  Json, text, num, obj, end, field, Js, Client, ModelActivation, Receipt, positive, create_payload,
  edit_revision, revision_uid, activation,
}
use aippliance_magic_stick.Harness.OwnedModel.Fence.{
  Method, Response, Ports, Cell, world, transport, call, model_path, same_uid,
}

-- The bodies of responses: `models` of GET /api/models, the activation that a create or an edit
-- returns, and the one in the receipt of a lifecycle action.
pub record Reader : Type 0 where
  pub activations : Response → Result Thrown (List ModelActivation)
  pub created : Response → Result Thrown ModelActivation
  pub activated : Response → Result Thrown (Option ModelActivation)

abbrev pub is_flag : Option Bool → Bool → Bool
is_flag none b = false
is_flag (some true) b = b
is_flag (some false) b = not b

abbrev pub same_flags : Option Bool → Option Bool → Bool
same_flags none none = true
same_flags (some a) b = is_flag b a
same_flags none (some b) = false

-- `Number(a) > Number(b)`, which fails where one of them is undefined.
abbrev pub exceeds : Option ℕ → Option ℕ → Bool
exceeds (some a) (some b) = ltb b a
exceeds (some a) none = false
exceeds none b = false

abbrev pub follows : Option ℕ → Option ℕ → Bool
follows (some a) (some b) = a == b + 1
follows (some a) none = false
follows none b = false

abbrev pub is_number : Option ℕ → ℕ → Bool
is_number none n = false
is_number (some m) n = m == n

abbrev pub present : Option String → Bool
present none = false
present (some s) = truthy s

-- A receipt under a uid that is there, with a generation that is there.
abbrev pub receipt : Option String → Option ℕ → Receipt
receipt uid n = record { uid = or_else uid ""; generation = or_else n 0 }

abbrev pub update_error : Thrown
update_error = harness (new_error ReasonCode.api Outcome.failed (some Stage.model_update) none)

abbrev pub is_update : ModelActivation → ModelActivation → ℕ → Bool
is_update current updated n =
    present current.uid
    && present current.name
    && same_text updated.uid current.uid
    && same_text updated.name current.name
    && follows updated.generation current.generation
    && is_number updated.context_window n
    && same_flags updated.enabled current.enabled

-- `modelContextUpdateReceipt(current, result, contextWindow)`
unfoldable pub model_context_update_receipt :
    ModelActivation → ModelActivation → ℕ → Result Thrown Receipt
model_context_update_receipt current updated n =
    if is_update current updated n
    then ok (receipt current.uid updated.generation)
    else err update_error

abbrev pub as_api : {S A : Type 0} → Thrown → Action Thrown S A
as_api (harness e) = throw (harness e)
as_api other = throw (of_code ReasonCode.api)

module _ {W : Type 0} (js : Js) (ports : Ports W) (reader : Reader) where
  -- `this.ownedUid && current.metadata?.uid === this.ownedUid`
  abbrev pub is_owned : Client → ModelActivation → Bool
  is_owned c current = present c.owned_uid && same_text current.uid c.owned_uid

  unfoldable pub models : Action Thrown (Cell W) (List ModelActivation)
  models = do
    response ← transport js ports (call js ports Method.get "/api/models" none)
    lift (reader.activations response)

  abbrev pub is_created : Client → ModelActivation → Bool
  is_created c item =
      same_text item.name (some c.name)
      && same_text item.namespace (some "ai-system")
      && present item.uid
      && positive item.generation

  abbrev pub set_owned : Option String → Action Thrown (Cell W) (Unit {0})
  set_owned uid = modify (λ c. record c { client = record c.client { owned_uid = uid } })

  -- `create()`
  unfoldable pub create : Action Thrown (Cell W) Receipt
  create = do
    client ← gets (λ (c : Cell W). c.client)
    items ← models
    existing ← activation items client.name
    require_safe (not (is_some existing)) ReasonCode.ownership
    item ←
        try_catch
          (do
            response ← transport js ports (
                call js ports Method.post "/api/models/local"
                  (some (js.stringify (create_payload js client))))
            lift (reader.created response))
          as_api
    require_safe (is_created client item) ReasonCode.ownership
    set_owned item.uid
    pure (receipt item.uid item.generation)

  -- `adopt(uid)`
  unfoldable pub adopt : String → Action Thrown (Cell W) (Unit {0})
  adopt uid = require_safe (truthy uid) ReasonCode.ownership >> set_owned (some uid)

  -- A lifecycle POST with the revision of `current`, and the activation in its receipt.
  abbrev pub post_action :
      Client → ModelActivation → String → Action Thrown (Cell W) (Option ModelActivation)
  post_action client current suffix = do
    response ← transport js ports (
        call js ports Method.post (model_path js client suffix) (
          some
            (js.stringify (obj (field "expectedRevision" (text (edit_revision js current)) end)))))
    lift (reader.activated response)

  abbrev pub is_switched : Client → ModelActivation → Bool → ModelActivation → Bool
  is_switched client current enabled item =
      same_text item.uid client.owned_uid
      && is_flag item.enabled enabled
      && exceeds item.generation current.generation

  abbrev pub found : Option ModelActivation → Result Thrown ModelActivation
  found none = err (of_code ReasonCode.api)
  found (some item) = ok item

  -- `start(current)` and `stop(current)`.
  unfoldable pub start : ModelActivation → Action Thrown (Cell W) Receipt
  start current = do
    client ← gets (λ (c : Cell W). c.client)
    require_safe
        (is_owned client current
          && is_flag current.enabled false
          && same_text current.name (some client.name))
        ReasonCode.ownership
    result ← try_catch (post_action client current "/start") as_api
    item ← lift (found result)
    require_safe (is_switched client current true item) ReasonCode.api
    pure (receipt client.owned_uid item.generation)

  unfoldable pub stop : ModelActivation → Action Thrown (Cell W) Receipt
  stop current = do
    client ← gets (λ (c : Cell W). c.client)
    require_safe
        (is_owned client current
          && is_flag current.enabled true
          && same_text current.name (some client.name))
        ReasonCode.ownership
    result ← post_action client current "/stop"
    item ← lift (found result)
    require_safe (is_switched client current false item) ReasonCode.api
    pure (receipt client.owned_uid item.generation)

  -- `restart(current)`
  unfoldable pub restart : ModelActivation → Action Thrown (Cell W) Receipt
  restart current = do
    client ← gets (λ (c : Cell W). c.client)
    require_safe
        (is_some client.fixture.realtime && is_owned client current && is_flag current.enabled true)
        ReasonCode.ownership
    result ← post_action client current "/restart"
    item ← lift (found result)
    require_safe (same_text item.uid client.owned_uid && exceeds item.generation current.generation)
        ReasonCode.api
    pure (receipt client.owned_uid item.generation)

  abbrev pub edit_body : ModelActivation → ℕ → Json
  edit_body current n = obj (
      field "expectedRevision" (text (edit_revision js current))
        (field "local" (obj (field "contextWindow" (num n) end)) end))

  -- `editContext(current, contextWindow)`
  unfoldable pub edit_context : ModelActivation → ℕ → Action Thrown (Cell W) Receipt
  edit_context current n = do
    client ← gets (λ (c : Cell W). c.client)
    require_safe (is_owned client current && same_text current.name (some client.name))
        ReasonCode.ownership
    response ← transport js ports (
        call js ports Method.put (model_path js client "")
          (some (js.stringify (edit_body current n))))
    updated ← lift (reader.created response)
    lift (model_context_update_receipt current updated n)

  abbrev not_revision : Client → String → Option ModelActivation → Bool
  not_revision client revision none = false
  not_revision client revision (some item) =
      same_text item.uid client.owned_uid && not (str_eq (edit_revision js item) revision)

  -- `rejectsStaleContextUpdate(expectedRevision, contextWindow)`; it goes round the fence.
  unfoldable pub rejects_stale_context_update : String → ℕ → Action Thrown (Cell W) (Unit {0})
  rejects_stale_context_update revision n = do
    client ← gets (λ (c : Cell W). c.client)
    require_safe
        (present client.owned_uid
          && same_uid (revision_uid revision) client.owned_uid
          && leb 256 n
          && leb n 4096)
        ReasonCode.mutation
    items ← models
    current ← activation items client.name
    require_safe (not_revision client revision current) ReasonCode.ownership
    world js ports ports.assert_mutation_allowed
    response ←
        try_catch
          (world js ports (
            ports.fetch (
              call js ports Method.put (model_path js client "") (
                some (
                  js.stringify (
                    obj (
                      field "expectedRevision" (text revision)
                        (field "local" (obj (field "contextWindow" (num n) end)) end))))))))
          (λ e. throw (of_code ReasonCode.api))
    require_safe (response.status == 409) ReasonCode.conflict

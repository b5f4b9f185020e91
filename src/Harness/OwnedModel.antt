-- ===== src/Harness/OwnedModel.antt =====
-- The client for the one model that a run owns, dashboard/apps/web/regression/core/owned-model.ts.
-- The root holds the data and the create payload, Fence the checks on each request, Methods the
-- methods of OwnedModelClient, Pods the functions that read pods and the catalogue.
pub mod Fence
pub mod Methods
pub mod Keeps
pub mod Advances
pub mod Unowned
pub mod Pods
pub mod Tests
use aippliance_magic_stick.Prelude.{
  ℕ, suc, Bool, true, false, Option, none, some, List, [], ◌∷◌, ◌++◌, String, ◌&&◌, ◌||◌, not,
  if◌then◌else◌, is_some, or_else, ltb, leb, ◌==◌, length, filter,
}
use Prim.Native.String
use aippliance_magic_stick.Prelude.Result.{Action, pure, ◌>>=◌, ◌>>◌}
use aippliance_magic_stick.Prelude.Text.{str_eq, same_text, codes, strip, is_digit, truthy}
use aippliance_magic_stick.Harness.Errors.{ReasonCode, Thrown, require_safe}
use aippliance_magic_stick.Harness.Journal.Entry.{is_resource_name}

mutual
  pub data Json : Type 0 where
    text : String → Json
    num : ℕ → Json
    flag : Bool → Json
    obj : Fields → Json
    null : Json

  pub data Fields : Type 0 where
    end : Fields
    field : String → Json → Fields → Fields

-- The fields of a ModelActivation that are read. A generation is a safe integer, or absent.
pub record ModelActivation : Type 0 where
  pub uid : Option String
  pub name : Option String
  pub namespace : Option String
  pub generation : Option ℕ
  pub resource_version : Option String
  pub enabled : Option Bool
  pub context_window : Option ℕ

-- RuntimeModelFixture: `cpu` is the target 'cpu', `nvidia` the target 'nvidia-gpu'.
pub record RuntimeModelFixture : Type 0 where
  pub compute_target : String
  pub engine : String
  pub url : String
  pub context_window : ℕ
  pub memory_required_mi : ℕ
  pub kv_cache_type : Option String
  pub realtime : Option Json
  pub gpu_devices : Option Json
  pub gpu_deployment : Option Json
  pub system_memory_mi : ℕ
  pub vllm : Option Json

-- The fields of OwnedModelClient, but for the network and the guard.
pub record Client : Type 0 where
  pub name : String
  pub fixture : RuntimeModelFixture
  pub owned_uid : Option String
  pub allow_memory_risk : Bool

pub record Receipt : Type 0 where
  pub uid : String
  pub generation : ℕ

-- `modelName(name, prefix)`
unfoldable pub model_name : String → String → Bool
model_name name prefix =
    is_some (strip (codes prefix) (codes name)) && is_resource_name (codes name)

abbrev pub kubeai_model_name_limit : ℕ
kubeai_model_name_limit = 40

-- The checks of the constructor; the object starts with no uid.
unfoldable pub new_client :
    {S : Type 0} → String → RuntimeModelFixture → String → Bool → Action Thrown S Client
unfolding model_name
new_client name fixture prefix allow_memory_risk = do
  require_safe (model_name name prefix) ReasonCode.ownership
  require_safe (is_some fixture.realtime || leb (length (codes name)) kubeai_model_name_limit)
      ReasonCode.config
  pure (record {
    name = name;
    fixture = fixture;
    owned_uid = none;
    allow_memory_risk = allow_memory_risk;
  })

-- `Number.isSafeInteger(n) && n > 0`
abbrev pub positive : Option ℕ → Bool
positive none = false
positive (some n) = ltb 0 n && leb n 9007199254740991

-- What JavaScript gives: JSON.stringify, JSON.parse, the decimal text of a number, and
-- encodeURIComponent.
pub record Js : Type 0 where
  pub stringify : Json → String
  pub parse : String → Option Json
  pub show : ℕ → String
  pub encode : String → String

abbrev revision_text : Js → Option String → Option ℕ → Option String → String
revision_text js (some uid) (some n) version =
    if truthy uid && positive (some n)
    then String.◌++◌ "generation:" (String.◌++◌ uid (String.◌++◌ ":" (js.show n)))
    else or_else version ""
revision_text js none n version = or_else version ""
revision_text js (some uid) none version = or_else version ""

-- `editRevision(item)`
unfoldable pub edit_revision : Js → ModelActivation → String
edit_revision js item = revision_text js item.uid item.generation item.resource_version

-- The part before the first colon, and what stands behind it.
abbrev pub until_colon : List ℕ → Option (List ℕ × List ℕ)
until_colon [] = none
until_colon (c ∷ cs) = let rest = until_colon cs in if c == b':' then some ([], cs) else behind rest
  where
    behind : Option (List ℕ × List ℕ) → Option (List ℕ × List ℕ)
    behind none = none
    behind (some (a, b)) = some (c ∷ a, b)

-- `[1-9]\d*$`
abbrev pub is_positive_text : List ℕ → Bool
is_positive_text [] = false
is_positive_text (c ∷ cs) = is_digit c && not (c == b'0') && digits cs
  where
    digits : List ℕ → Bool
    digits [] = true
    digits (d ∷ ds) = is_digit d && digits ds

abbrev group : Option (List ℕ × List ℕ) → Option (List ℕ)
group none = none
group (some ([], b)) = none
group (some (a ∷ as', b)) = if is_positive_text b then some (a ∷ as') else none

abbrev parts : Option (List ℕ) → Option (List ℕ)
parts none = none
parts (some cs) = group (until_colon cs)

-- `/^generation:([^:]+):([1-9]\d*)$/.exec(revision)?.[1]`, as code points.
unfoldable pub revision_uid : String → Option (List ℕ)
revision_uid s = parts (strip (codes "generation:") (codes s))

-- `activation(payload, name)`
unfoldable pub activation :
    {S : Type 0} → List ModelActivation → String → Action Thrown S (Option ModelActivation)
activation items name =
    let matches = filter (λ (item : ModelActivation). same_text item.name (some name)) items in
    require_safe (leb (length matches) 1) ReasonCode.ownership >> pure (first matches)
  where
    first : List ModelActivation → Option ModelActivation
    first [] = none
    first (x ∷ xs) = some x

abbrev optional : String → Option Json → Fields → Fields
optional key none rest = rest
optional key (some v) rest = field key v rest

abbrev one_field : Fields → Fields → Fields
one_field end rest = rest
one_field (field k v f) rest = field k v (one_field f rest)

module _ (js : Js) (c : Client) where
  abbrev memory_fields : Fields
  memory_fields =
      if str_eq c.fixture.compute_target "cpu"
      then field "memoryRequiredMi" (num c.fixture.memory_required_mi) end
      else field "vram" (text (String.◌++◌ (js.show c.fixture.memory_required_mi) "Mi")) (
          if str_eq c.fixture.compute_target "nvidia-gpu"
          then field "cpuOffloading" (flag false) end
          else end)

  abbrev runtime_fields : Option Json → Fields
  runtime_fields (some realtime) = field "realtime" realtime end
  runtime_fields none = one_field memory_fields (cache_field c.fixture.kv_cache_type)
    where
      cache_field : Option String → Fields
      cache_field none = end
      cache_field (some kind) = if truthy kind then field "kvCacheType" (text kind) end else end

  abbrev gpu_fields : Option Json → Fields
  gpu_fields none = end
  gpu_fields (some devices) = field "gpuDevices" devices (
      optional "gpuDeployment" c.fixture.gpu_deployment (
        field "memoryRequiredMi" (num c.fixture.system_memory_mi)
          (optional "vllm" c.fixture.vllm end)))

  -- `createPayload()`
  unfoldable pub create_payload : Json
  create_payload = obj (
      field "name" (text c.name) (
        field "enabled" (flag true) (
          field "targetNamespace" (text "ai") (
            field "local"
              (obj (
                field "modelType" (text "chat") (
                  field "computeTarget" (text c.fixture.compute_target) (
                    field "engine" (text c.fixture.engine) (
                      field "url" (text c.fixture.url) (
                        field "contextWindow" (num c.fixture.context_window) (
                          field "maxNumSeqs" (num 1) (
                            one_field (runtime_fields c.fixture.realtime) (
                              one_field
                                (if c.allow_memory_risk
                                  then field "allowMemoryRisk" (flag true) end
                                  else end)
                                (gpu_fields c.fixture.gpu_devices))))))))))
              end))))

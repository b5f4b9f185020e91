-- ===== src/Harness/Sharing/Spec.antt =====
-- The specs of GPU operators and the requests that change them (borrowed-sharing.ts). A spec is a
-- JSON object. Its field `parameters` and the two settings in it are kept apart; every other key
-- stands with the canonical text of its value, in key order, so that `canonical` texts are equal
-- exactly when the parts are.
use aippliance_magic_stick.Prelude.{
  ℕ, Bool, true, false, Option, none, some, List, [], ◌∷◌, String, ◌&&◌, ◌||◌, not, if◌then◌else◌,
  is_some,
}
use Prim.Native.String
use aippliance_magic_stick.Prelude.Result.{Result, ok, err}
use aippliance_magic_stick.Prelude.Text.{str_eq, truthy, includes, Labels}
use aippliance_magic_stick.Harness.Errors.{ReasonCode, Thrown, of_code}

pub data Provider : Type 0 where
  amd nvidia : Provider

pub data Mode : Type 0 where
  exclusive shared : Mode

pub data AllocationBackend : Type 0 where
  dra device_plugin : AllocationBackend

-- A value in `parameters`: a text, or any other JSON value by its canonical text.
pub data Value : Type 0 where
  text : String → Value
  json : String → Value

pub record Parameters : Type 0 where
  pub gpu_sharing : Option Value
  pub validation_request : Option Value
  pub others : Labels

-- The key `parameters` of a spec: absent, an object, or a value that is no object.
pub data ParametersField : Type 0 where
  absent : ParametersField
  object : Parameters → ParametersField
  malformed : String → ParametersField

pub record Spec : Type 0 where
  pub parameters : ParametersField
  pub others : Labels

pub data Presence : Type 0 where
  empty missing : Presence

-- `parameters` is 'absent' or 'present'; `validation_request` is there for amd only.
pub record GpuSharingDefaults : Type 0 where
  pub has_parameters : Bool
  pub gpu_sharing : Presence
  pub validation_request : Option Presence

pub record GpuSharingRequest : Type 0 where
  pub provider : Provider
  pub mode : Mode
  pub max_models : ℕ
  pub node_name : String
  pub node_uid : String
  pub expected_revision : Option String
  pub acknowledge_sharing : Bool
  pub acknowledge_restart : Bool
  pub allocation_backend : Option AllocationBackend
  pub restore_defaults : Option GpuSharingDefaults

-- Equality of `canonical` texts, part by part.
abbrev pub same_value : Value → Value → Bool
same_value (text a) (text b) = str_eq a b
same_value (json a) (json b) = str_eq a b
same_value (text a) (json b) = false
same_value (json a) (text b) = false

abbrev pub same_option : Option Value → Option Value → Bool
same_option none none = true
same_option (some a) (some b) = same_value a b
same_option none (some b) = false
same_option (some a) none = false

abbrev pub same_labels : Labels → Labels → Bool
same_labels [] [] = true
same_labels ((j, v) ∷ m) ((k, w) ∷ n) = str_eq j k && str_eq v w && same_labels m n
same_labels [] (x ∷ n) = false
same_labels (x ∷ m) [] = false

abbrev pub same_parameters : Parameters → Parameters → Bool
same_parameters a b =
    same_option a.gpu_sharing b.gpu_sharing
    && same_option a.validation_request b.validation_request
    && same_labels a.others b.others

abbrev pub same_field : ParametersField → ParametersField → Bool
same_field absent absent = true
same_field (object a) (object b) = same_parameters a b
same_field (malformed a) (malformed b) = str_eq a b
same_field absent (object b) = false
same_field absent (malformed b) = false
same_field (object a) absent = false
same_field (object a) (malformed b) = false
same_field (malformed a) absent = false
same_field (malformed a) (object b) = false

-- `canonical(a) === canonical(b)`
unfoldable pub same_spec : Spec → Spec → Bool
same_spec a b = same_field a.parameters b.parameters && same_labels a.others b.others

-- A value that is there and is not the empty text.
abbrev pub is_set : Option Value → Bool
is_set none = false
is_set (some (text s)) = not (str_eq s "")
is_set (some (json j)) = true

abbrev presence_of : Option Value → Presence
presence_of none = Presence.missing
presence_of (some v) = Presence.empty

abbrev is_amd : Provider → Bool
is_amd Provider.amd = true
is_amd Provider.nvidia = false

abbrev defaults_of : Bool → Provider → Parameters → Option GpuSharingDefaults
defaults_of has provider values =
    if is_set values.gpu_sharing || is_set values.validation_request
    then none
    else some (record {
      has_parameters = has;
      gpu_sharing = presence_of values.gpu_sharing;
      validation_request =
          if is_amd provider then some (presence_of values.validation_request) else none;
    })

abbrev pub no_parameters : Parameters
no_parameters = record { gpu_sharing = none; validation_request = none; others = [] }

abbrev defaults_in : ParametersField → Provider → Option GpuSharingDefaults
defaults_in absent provider = defaults_of false provider no_parameters
defaults_in (object values) provider = defaults_of true provider values
defaults_in (malformed j) provider = none

-- `defaultFields(spec, provider)`
unfoldable pub default_fields : Spec → Provider → Option GpuSharingDefaults
default_fields spec provider = defaults_in spec.parameters provider

-- `Boolean(value)`
abbrev pub is_truthy : Option Value → Bool
is_truthy none = false
is_truthy (some (text s)) = truthy s
is_truthy (some (json j)) = not (includes ("null" ∷ "false" ∷ "0" ∷ []) j)

abbrev sharing_in : ParametersField → Bool
sharing_in absent = false
sharing_in (object p) = is_truthy p.gpu_sharing
sharing_in (malformed j) = false

-- `Boolean(spec.parameters?.gpuSharing)`
unfoldable pub is_managed : Spec → Bool
is_managed spec = sharing_in spec.parameters

abbrev is_shared : Mode → Bool
is_shared Mode.shared = true
is_shared Mode.exclusive = false

abbrev is_dra : Option AllocationBackend → Bool
is_dra (some AllocationBackend.dra) = true
is_dra _ = false

-- What JavaScript gives: the keys of `{...value}` where the value is no object, and
-- JSON.stringify of a text and of a number.
pub record Json : Type 0 where
  pub spread : String → Parameters
  pub quote : String → String
  pub show : ℕ → String

abbrev mode_text : GpuSharingRequest → String
mode_text r =
    if not (is_shared r.mode)
    then "exclusive"
    else (if is_amd r.provider || is_dra r.allocation_backend then "dra-shared" else "time-slicing")

abbrev join : List String → String
join [] = ""
join (s ∷ ss) = String.◌++◌ s (join ss)

module _ (js : Json) where
  -- The parameters of a spec as `{...(spec.parameters ?? {})}`.
  abbrev pub spread_field : ParametersField → Parameters
  spread_field absent = no_parameters
  spread_field (object p) = p
  spread_field (malformed j) = js.spread j

  -- The text of `config`, its keys in order.
  unfoldable pub config_text : GpuSharingRequest → String
  config_text r = join (
      "{"
      ∷ (if not (is_amd r.provider) && is_dra r.allocation_backend
          then "\"allocationBackend\": \"dra\", "
          else "")
      ∷ "\"allowExperimental\": "
      ∷ (if is_amd r.provider && is_shared r.mode then "true" else "false")
      ∷ ", \"maxModels\": "
      ∷ js.show r.max_models
      ∷ ", \"mode\": "
      ∷ js.quote (mode_text r)
      ∷ ", \"namespace\": \"ai\", \"nodeName\": "
      ∷ js.quote r.node_name
      ∷ ", \"nodeUid\": "
      ∷ js.quote r.node_uid
      ∷ "}"
      ∷ [])

  abbrev restored_value : Presence → Option Value
  restored_value Presence.empty = some (text "")
  restored_value Presence.missing = none

  abbrev is_empty_presence : Option Presence → Presence
  is_empty_presence none = Presence.missing
  is_empty_presence (some p) = p

  abbrev is_nothing : Parameters → Bool
  is_nothing p =
      not (is_some p.gpu_sharing) && not (is_some p.validation_request) && is_nil p.others
    where
      is_nil : Labels → Bool
      is_nil [] = true
      is_nil (x ∷ xs) = false

  abbrev with_defaults : Spec → Provider → Parameters → GpuSharingDefaults → Result Thrown Spec
  with_defaults spec provider p defaults =
      let q : Parameters = record p {
        gpu_sharing = restored_value defaults.gpu_sharing;
        validation_request =
            if is_amd provider
            then restored_value (is_empty_presence defaults.validation_request)
            else p.validation_request;
      } in
      if defaults.has_parameters
      then ok (record spec { parameters = object q })
      else (if is_nothing q
          then ok (record spec { parameters = absent })
          else err (of_code ReasonCode.conflict))

  -- `sharingSpec(spec, request)`
  unfoldable pub sharing_spec : Spec → GpuSharingRequest → Result Thrown Spec
  sharing_spec spec r = by_defaults r.restore_defaults
    where
      by_defaults : Option GpuSharingDefaults → Result Thrown Spec
      by_defaults (some defaults) =
          with_defaults spec r.provider (spread_field spec.parameters) defaults
      by_defaults none = ok (record spec {
        parameters = object (record (spread_field spec.parameters) {
          gpu_sharing = some (text (config_text r));
          validation_request =
              if is_amd r.provider
              then some (text "")
              else (spread_field spec.parameters).validation_request;
        });
      })

-- ===== src/Shared/Drafts.antt =====
-- The edits of a local model, dashboard/packages/core/src/local-model-configuration.ts:
-- localModelChanges. A JSON object is an association list of its keys. `JSON.stringify` of a Realtime
-- setting is given as its text, and `Number` of a text is a parameter.
pub mod Same
pub mod Create
use aippliance_magic_stick.Prelude.{
  ℕ, Bool, true, false, Option, none, some, List, [], ◌∷◌, String, not, ◌&&◌, ◌||◌, ltb, leb, ◌==◌,
  if◌then◌else◌, or_else, length,
}
use aippliance_magic_stick.Prelude.Text.{str_eq, truthy, Labels, put}
use aippliance_magic_stick.Prelude.Result.{Result, ok, err}
use Prim.Native.String

pub record NvidiaGpuSelection : Type 0 where
  pub uuid : String
  pub node_uid : String

-- `realtime`, with the text that `JSON.stringify` gives for it.
pub record Realtime : Type 0 where
  pub profile : String
  pub json : String

-- What both kinds of drafts hold.
pub record Common : Type 0 where
  pub engine : String
  pub compute_target : String
  pub model_type : String
  pub context_window : ℕ
  pub max_num_seqs : ℕ
  pub max_output_tokens : String

pub record Standard : Type 0 where
  pub kv_cache_type : String
  pub selected_mi : ℕ
  pub host_memory_mi : ℕ
  pub cpu_offloading : Bool
  pub gpu_devices : List NvidiaGpuSelection
  pub gpu_deployment : String
  pub parallelism : String

pub data LocalModelDraft : Type 0 where
  standard : Common → Standard → LocalModelDraft
  omni : Common → Realtime → LocalModelDraft

-- `vllm` is given as the JSON text of each of its fields.
pub record LocalModelSerializationOptions : Type 0 where
  pub cpu_resources : Option String
  pub cpu_changed : Bool
  pub vllm : Labels
  pub deployment_changed : Bool
  pub allow_memory_risk : Option Bool
  pub initial_allow_memory_risk : Option Bool

pub data Json : Type 0 where
  null : Json
  text : String → Json
  number : ℕ → Json
  flag : Bool → Json
  device : NvidiaGpuSelection → Json
  devices : List NvidiaGpuSelection → Json
  fields : Labels → Json

pub data DraftError : Type 0 where
  target_changed profile_changed : DraftError

abbrev pub Changes : Type 0
Changes = List (String × Json)

-- `changes[key] = value`
abbrev pub set : String → Json → Changes → Changes
set key value [] = (key, value) ∷ []
set key value ((k, v) ∷ changes) =
    let rest = set key value changes in if str_eq k key then (k, value) ∷ changes else (k, v) ∷ rest

-- `if (condition) changes[key] = value;`
abbrev pub when : Bool → String → Json → Changes → Changes
when condition key value changes = if condition then set key value changes else changes

abbrev pub several : List NvidiaGpuSelection → Bool
several ds = ltb 1 (length ds)

abbrev pub nothing : {A : Type 0} → List A → Bool
nothing [] = true
nothing (x ∷ xs) = false

abbrev pub assign_devices : Bool → List NvidiaGpuSelection → String → Changes → Changes
assign_devices true ds deployment changes =
    set "gpuDeployment" (text deployment) (set "gpuDevices" (devices ds) changes)
assign_devices false (d ∷ ds) deployment changes =
    set "gpuDeployment" (text deployment) (set "gpuDevice" (device d) changes)
assign_devices false [] deployment changes = changes

-- `Object.assign(changes, gpuSettings(draft))`
abbrev pub gpu_settings : Standard → Changes → Changes
gpu_settings draft changes =
    assign_devices (several draft.gpu_devices) draft.gpu_devices draft.gpu_deployment changes

-- `vllmSettings(draft, options)`
abbrev pub vllm_settings : Common → Standard → LocalModelSerializationOptions → Labels
vllm_settings common draft options =
    if str_eq common.engine "VLLM"
      && several draft.gpu_devices
      && not (str_eq draft.gpu_deployment "replicated")
    then put options.vllm "parallelism" draft.parallelism
    else options.vllm

-- `devices.map(device => …).join(',')`
abbrev pub identity : List NvidiaGpuSelection → String
identity [] = ""
identity (d ∷ []) = String.◌++◌ d.node_uid (String.◌++◌ "/" d.uuid)
identity (d ∷ e ∷ ds) =
    String.◌++◌ (String.◌++◌ d.node_uid (String.◌++◌ "/" d.uuid))
      (String.◌++◌ "," (identity (e ∷ ds)))

abbrev pub differ : String → String → Bool
differ a b = not (str_eq a b)

abbrev pub same_flag : Bool → Bool → Bool
same_flag true b = b
same_flag false b = not b

abbrev same_option : Option Bool → Option Bool → Bool
same_option none none = true
same_option (some a) (some b) = same_flag a b
same_option none (some b) = false
same_option (some a) none = false

abbrev text_or_null : Option String → Json
text_or_null none = null
text_or_null (some s) = text s

abbrev fields_or_null : Labels → Json
fields_or_null [] = null
fields_or_null (l ∷ ls) = fields (l ∷ ls)

-- What `changes` has when the kinds of drafts part.
abbrev pub common_changes : Common → Common → LocalModelSerializationOptions → Changes
common_changes initial draft options =
    when options.cpu_changed "cpuResources" (text_or_null options.cpu_resources) (
      when (not (draft.max_num_seqs == initial.max_num_seqs)) "maxNumSeqs"
        (number draft.max_num_seqs)
        (when (not (draft.context_window == initial.context_window)) "contextWindow"
          (number draft.context_window) []))

-- The block for changed devices or a changed deployment.
abbrev pub device_changes : Bool → Standard → Standard → Changes → Changes
device_changes false initial draft changes = changes
device_changes true initial draft changes =
    when (several initial.gpu_devices && not (several draft.gpu_devices)) "gpuDevices" null (
      when
        (not (several initial.gpu_devices)
          && (several draft.gpu_devices || nothing draft.gpu_devices))
        "gpuDevice" null
        (when (nothing draft.gpu_devices) "gpuDeployment" null (gpu_settings draft changes)))

abbrev pub needs_host_ram : Standard → Bool
needs_host_ram draft = draft.cpu_offloading || several draft.gpu_devices

module _ (to_number : String → ℕ) where
  abbrev output_limit : String → Json
  output_limit s = if truthy s then number (to_number s) else null

  -- The plain fields of a standard draft.
  abbrev pub field_changes : Common → Common → Standard → Standard → Changes → Changes
  field_changes initial draft before after changes =
      when (not (same_flag after.cpu_offloading before.cpu_offloading)) "cpuOffloading"
        (flag after.cpu_offloading)
        (when (not (after.selected_mi == before.selected_mi))
          (if str_eq draft.compute_target "cpu" then "memoryRequiredMi" else "vramMi")
          (number after.selected_mi)
          (when (differ after.kv_cache_type before.kv_cache_type) "kvCacheType"
            (text after.kv_cache_type)
            (when (differ draft.max_output_tokens initial.max_output_tokens) "maxOutputTokens"
              (output_limit draft.max_output_tokens)
              (when (differ draft.model_type initial.model_type) "modelType" (text draft.model_type)
                changes))))

  -- The host memory.
  abbrev pub memory_changes : Bool → Standard → Standard → Changes → Changes
  memory_changes devices_changed before after changes =
      when (not (needs_host_ram after) && needs_host_ram before) "memoryRequiredMi" null (
        when
          (needs_host_ram after
            && (not (after.host_memory_mi == before.host_memory_mi)
                || not (same_flag after.cpu_offloading before.cpu_offloading)
                || devices_changed))
          "memoryRequiredMi" (number after.host_memory_mi) changes)

  abbrev pub standard_changes :
      Common → Common → Standard → Standard → LocalModelSerializationOptions → Changes → Changes
  standard_changes initial draft before after options changes =
      let devices_changed = differ (identity after.gpu_devices) (identity before.gpu_devices) in
      let deployment_changed = differ after.gpu_deployment before.gpu_deployment in
      when
        (str_eq draft.engine "VLLM"
          && (options.deployment_changed
              || (devices_changed
                  || deployment_changed
                  || differ after.parallelism before.parallelism)
                && (several after.gpu_devices || several before.gpu_devices)))
        "vllm" (fields_or_null (vllm_settings draft after options))
        (memory_changes devices_changed before after (
          device_changes (devices_changed || deployment_changed) before after
            (field_changes initial draft before after changes)))

  -- The last test, on the changes so far.
  abbrev pub with_risk : LocalModelSerializationOptions → Changes → Changes
  with_risk options changes =
      when
        (not (nothing changes)
          && not (same_option options.allow_memory_risk options.initial_allow_memory_risk))
        "allowMemoryRisk" (flag (or_else options.allow_memory_risk false)) changes

  abbrev pub same_target : Common → Common → Bool
  same_target initial draft =
      str_eq initial.engine draft.engine && str_eq initial.compute_target draft.compute_target

  unfoldable pub local_model_changes :
      LocalModelDraft → LocalModelDraft → LocalModelSerializationOptions → Result DraftError Changes
  local_model_changes (standard initial before) (standard draft after) options =
      if same_target initial draft
      then ok (
          with_risk options (
            standard_changes initial draft before after options
              (common_changes initial draft options)))
      else err DraftError.target_changed
  local_model_changes (omni initial before) (omni draft after) options =
      if same_target initial draft
      then (if str_eq after.profile before.profile
          then ok (
              when (differ after.json before.json) "realtime" (text after.json)
                (common_changes initial draft options))
          else err DraftError.profile_changed)
      else err DraftError.target_changed
  local_model_changes _ _ options = err DraftError.target_changed

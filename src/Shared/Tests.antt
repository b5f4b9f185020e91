-- ===== src/Shared/Tests.antt =====
-- Examples for the shared dashboard logic. Texts are given in lower case already.
use aippliance_magic_stick.Prelude.{
  true, false, Option, none, some, List, [], ◌∷◌, ◌++◌, String, ltb, is_some, find, All, ◌≡◌, refl,
  if◌then◌else◌,
}
use aippliance_magic_stick.Prelude.Text.{codes, str_eq, truthy}
use aippliance_magic_stick.Shared.ModelName.{Text, model_name_error, safe_model_name}
use aippliance_magic_stick.Shared.ModelName.Safe.{safe_model_name-accepted}
use aippliance_magic_stick.Shared.Phase.{
  Tone, phase_in_progress, phase_needs_attention, progress_for_phase, progress-of_in_progress,
  progress-of_attention,
}
use aippliance_magic_stick.Shared.Access.{can_administer, can_mutate_runtime, can_administer-append}
use aippliance_magic_stick.Shared.Modules.{
  ModuleState, ModuleCatalogEntry, module_ready, missing_application_modules, IsReady,
  missing_application_modules-IsReady,
}
use aippliance_magic_stick.Shared.Catalogue.{
  GpuCompatibilityProfile, ModelArtifact, ModelVariant, gpu_compatibility_parameters,
  gpu_compatibility_parameters-ok,
}
use aippliance_magic_stick.Shared.Drafts.{
  Common, Realtime, LocalModelDraft, LocalModelSerializationOptions, local_model_changes,
}
use aippliance_magic_stick.Shared.Drafts.Same.{local_model_changes-same, local_model_changes-ok}
use aippliance_magic_stick.Prelude.{ℕ}
use aippliance_magic_stick.Prelude.Result.{ok}
use aippliance_magic_stick.Shared.Drafts.{Standard}
use aippliance_magic_stick.Shared.Drafts.Create.{
  Source, has, local_model_create, local_model_create-engine,
}

abbrev same : String → String
same s = s

abbrev same_units : Text → Text
same_units s = s

safe_model_name-accepted_example :
    model_name_error (safe_model_name same_units (codes "hf://org/--qwen_3.gguf")) [] ≡ none
safe_model_name-accepted_example =
    safe_model_name-accepted same_units (codes "hf://org/--qwen_3.gguf")

progress-of_in_progress_example :
    ((progress_for_phase same (some "starting") true "").tone ≡ Tone.warn)
    × (ltb (progress_for_phase same (some "starting") true "").value 100 ≡ true)
unfolding phase_in_progress
progress-of_in_progress_example = progress-of_in_progress same (some "starting") "" refl

progress-of_attention_example :
    ((progress_for_phase same (some "conflict") false "").tone ≡ Tone.bad)
    × ((progress_for_phase same (some "conflict") false "").value ≡ 100)
unfolding phase_in_progress phase_needs_attention
progress-of_attention_example =
    progress-of_attention same (λ s. refl) (some "conflict") false "" refl refl

can_administer-append_example :
    (can_administer (some ("magicstick-admin" ∷ [])) ≡ true
      → can_mutate_runtime (some ("magicstick-admin" ∷ [])) ≡ true)
    × (can_administer (some ("magicstick-admin" ∷ [])) ≡ true
        → can_administer (some (("magicstick-admin" ∷ []) ++ "x" ∷ [])) ≡ true)
    × (can_mutate_runtime (some ("magicstick-admin" ∷ [])) ≡ true
        → can_mutate_runtime (some (("magicstick-admin" ∷ []) ++ "x" ∷ [])) ≡ true)
can_administer-append_example = can_administer-append ("magicstick-admin" ∷ []) ("x" ∷ [])

abbrev modules : String → Option ModuleState
modules id =
    if str_eq id "gpu"
    then some (record { enabled = some true; activation_mode = none; phase = some "ready" })
    else none

abbrev no_catalog : String → Option ModuleCatalogEntry
no_catalog id = none

none_missing : missing_application_modules same (some ("gpu" ∷ [])) modules no_catalog ≡ []
unfolding missing_application_modules module_ready
none_missing = refl

missing_application_modules-IsReady_example :
    All (λ id. IsReady same (modules id) (no_catalog id)) ("gpu" ∷ [])
missing_application_modules-IsReady_example =
    missing_application_modules-IsReady same ("gpu" ∷ []) modules no_catalog none_missing

abbrev profiles : List GpuCompatibilityProfile
profiles = record { id = "gfx1151"; experimental = true } ∷ []

abbrev profile : Option GpuCompatibilityProfile
profile = find (λ item. str_eq item.id "gfx1151") profiles

gpu_compatibility_parameters-ok_example :
    (truthy "gfx1151" ≡ true → is_some profile ≡ true) × (true ≡ true) × (true ≡ true → true ≡ true)
unfolding gpu_compatibility_parameters
gpu_compatibility_parameters-ok_example =
    gpu_compatibility_parameters-ok "gfx1151" profiles true
      (record { compatibility_profile = "gfx1151"; allow_experimental = true }) refl

abbrev artifact : ModelArtifact
artifact = record { id = some "q4"; url = none }

abbrev variant : ModelVariant
variant = record {
  compute_target = some "cpu";
  engine = some "OLlama";
  default_artifact = none;
  artifacts = some (artifact ∷ []);
}

abbrev common : Common
common = record {
  engine = "VLLM";
  compute_target = "nvidia-gpu";
  model_type = "chat";
  context_window = 8192;
  max_num_seqs = 1;
  max_output_tokens = "";
}

abbrev settings : Standard
settings = record {
  kv_cache_type = "auto";
  selected_mi = 4096;
  host_memory_mi = 16400;
  cpu_offloading = true;
  gpu_devices = record { uuid = "gpu"; node_uid = "node" } ∷ [];
  gpu_deployment = "single";
  parallelism = "auto";
}

abbrev draft : LocalModelDraft
draft = LocalModelDraft.standard common settings

abbrev options : LocalModelSerializationOptions
options = record {
  cpu_resources = none;
  cpu_changed = false;
  vllm = [];
  deployment_changed = false;
  allow_memory_risk = some true;
  initial_allow_memory_risk = none;
}

abbrev realtime : String → Realtime
realtime json = record { profile = "qwen3"; json = json }

abbrev to_number : String → ℕ
to_number s = 0

local_model_changes-same_example : local_model_changes to_number draft draft options ≡ ok []
local_model_changes-same_example =
    local_model_changes-same to_number draft options (record { cpu = refl; deployment = refl })

local_model_changes-ok_example :
    (common.engine ≡ common.engine)
    × (common.compute_target ≡ common.compute_target)
    × ((realtime "b").profile ≡ (realtime "a").profile)
unfolding local_model_changes
local_model_changes-ok_example =
    local_model_changes-ok to_number common common (realtime "a") (realtime "b") options _ refl

abbrev source : Source
source = record { source = "search"; preset_id = ""; artifact_id = ""; url = "hf://org/model" }

abbrev to_text : ℕ → String
to_text n = "4096Mi"

local_model_create-engine_example :
    (has "vllm" (local_model_create to_number to_text common settings source options) ≡ true
      → common.engine ≡ "VLLM")
    × (has "cpuOffloading" (local_model_create to_number to_text common settings source options)
          ≡ true
        → common.compute_target ≡ "nvidia-gpu")
local_model_create-engine_example =
    local_model_create-engine to_number to_text common settings source options

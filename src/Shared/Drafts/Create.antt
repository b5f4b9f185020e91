-- ===== src/Shared/Drafts/Create.antt =====
-- The settings that a new standard model is created with: localModelCreatePayload of
-- local-model-configuration.ts for a draft of the kind 'standard', without the name. `Number` of a
-- text and the text of a number are parameters.
use aippliance_magic_stick.Prelude.{
  ℕ, Bool, true, false, Option, none, some, List, [], ◌∷◌, String, not, ◌&&◌, ◌||◌, if◌then◌else◌,
  or_else, is_some, ◌≡◌, refl, sym, ◌∙◌, arith, Bool-cases, inl, inr,
}
use aippliance_magic_stick.Prelude.Text.{str_eq, str_eq_iff, truthy}
use aippliance_magic_stick.Shared.Drafts.{
  NvidiaGpuSelection, Common, Standard, LocalModelSerializationOptions, Json, Changes, set, when,
  several, nothing, assign_devices, gpu_settings, vllm_settings,
}

-- Where the model comes from.
pub record Source : Type 0 where
  pub source : String
  pub preset_id : String
  pub artifact_id : String
  pub url : String

abbrev cpu_text : Option String → Json
cpu_text none = Json.null
cpu_text (some s) = Json.text s

module _ (to_number : String → ℕ) (to_text : ℕ → String) where
  abbrev base_fields : Common → LocalModelSerializationOptions → Changes
  base_fields c options =
      when (is_some options.cpu_resources) "cpuResources" (cpu_text options.cpu_resources) (
        set "maxNumSeqs" (Json.number c.max_num_seqs) (
          set "contextWindow" (Json.number c.context_window) (
            set "modelType" (Json.text c.model_type) (
              set "computeTarget" (Json.text c.compute_target)
                (set "engine" (Json.text c.engine) [])))))

  abbrev memory_field : Common → Standard → Changes → Changes
  memory_field c s changes =
      if str_eq c.compute_target "cpu"
      then set "memoryRequiredMi" (Json.number s.selected_mi) changes
      else set "vram" (Json.text (to_text s.selected_mi)) changes

  abbrev source_fields : Source → Changes → Changes
  source_fields o changes =
      if str_eq o.source "preset" && truthy o.preset_id
      then when (truthy o.artifact_id) "artifact" (Json.text o.artifact_id)
          (set "preset" (Json.text o.preset_id) changes)
      else set "url" (Json.text o.url) changes

  abbrev lower_fields : Common → Standard → LocalModelSerializationOptions → Changes
  lower_fields c s options =
      set "kvCacheType" (Json.text s.kv_cache_type) (gpu_settings s (base_fields c options))

  abbrev engine_fields : Common → Standard → LocalModelSerializationOptions → Changes
  engine_fields c s options =
      when (str_eq c.engine "VLLM" && not (nothing (vllm_settings c s options))) "vllm"
        (Json.fields (vllm_settings c s options)) (memory_field c s (lower_fields c s options))

  abbrev gpu_fields : Common → Standard → Changes → Changes
  gpu_fields c s changes =
      when (s.cpu_offloading || several s.gpu_devices) "memoryRequiredMi"
        (Json.number s.host_memory_mi)
        (when (str_eq c.compute_target "nvidia-gpu") "cpuOffloading" (Json.flag s.cpu_offloading)
          changes)

  abbrev limit_fields : Common → LocalModelSerializationOptions → Changes → Changes
  limit_fields c options changes =
      when (truthy c.max_output_tokens) "maxOutputTokens"
        (Json.number (to_number c.max_output_tokens))
        (when (or_else options.allow_memory_risk false) "allowMemoryRisk" (Json.flag true) changes)

  unfoldable pub local_model_create :
      Common → Standard → Source → LocalModelSerializationOptions → Changes
  local_model_create c s o options =
      source_fields o (limit_fields c options (gpu_fields c s (engine_fields c s options)))

abbrev pub has : String → Changes → Bool
has key [] = false
has key ((k, v) ∷ changes) = str_eq k key || has key changes

has-set :
    (key other : String) (v : Json) (changes : Changes)
    → has key (set other v changes) ≡ (str_eq other key || has key changes)
has-set key other v [] = refl
has-set key other v ((k, w) ∷ changes) = elim (Bool-cases (str_eq k other)) [
  | inl e ↦ rw e (
      same (str_eq k key) (str_eq other key) (has key changes) (rw ((str_eq_iff k other).0 e) refl))
  | inr e ↦
      rw (e, has-set key other v changes) (swap (str_eq k key) (str_eq other key) (has key changes))
]
  where
    same : (a b r : Bool) → a ≡ b → (a || r) ≡ (b || (a || r))
    same a b r h = ground (arith, h)

    swap : (a b r : Bool) → (a || (b || r)) ≡ (b || (a || r))
    swap a b r = ground arith

has-when :
    (key other : String) (b : Bool) (v : Json) (changes : Changes)
    → has key (when b other v changes) ≡ (b && str_eq other key || has key changes)
has-when key other true v changes = has-set key other v changes
has-when key other false v changes = refl

has-assign_devices :
    (key : String) (b : Bool) (ds : List NvidiaGpuSelection) (deployment : String)
    (changes : Changes)
    → str_eq "gpuDeployment" key ≡ false
    → str_eq "gpuDevices" key ≡ false
    → str_eq "gpuDevice" key ≡ false
    → has key (assign_devices b ds deployment changes) ≡ has key changes
has-assign_devices key true ds deployment changes p q r =
    rw
      (
        has-set key "gpuDeployment" (Json.text deployment)
            (set "gpuDevices" (Json.devices ds) changes),
        p,
        has-set key "gpuDevices" (Json.devices ds) changes,
        q,
      )
      refl
has-assign_devices key false (d ∷ ds) deployment changes p q r =
    rw
      (
        has-set key "gpuDeployment" (Json.text deployment)
            (set "gpuDevice" (Json.device d) changes),
        p,
        has-set key "gpuDevice" (Json.device d) changes,
        r,
      )
      refl
has-assign_devices key false [] deployment changes p q r = refl

-- The keys under which one of the settings below can come.
abbrev is_other : String → Bool
is_other key =
    str_eq "artifact" key
    || str_eq "preset" key
    || str_eq "url" key
    || str_eq "memoryRequiredMi" key
    || str_eq "vram" key

module _ (key : String) where
  skip_source :
      (b a : Bool) (u v w : Json) (changes : Changes)
      → is_other key ≡ false
      → has key (if b then when a "artifact" u (set "preset" v changes) else set "url" w changes)
        ≡ has key changes
  skip_source true true u v w changes h =
      rw (has-set key "artifact" u (set "preset" v changes), has-set key "preset" v changes)
        (ground (arith, h))
  skip_source true false u v w changes h = rw (has-set key "preset" v changes) (ground (arith, h))
  skip_source false a u v w changes h = rw (has-set key "url" w changes) (ground (arith, h))

  skip_memory :
      (b : Bool) (u v : Json) (changes : Changes)
      → is_other key ≡ false
      → has key (if b then set "memoryRequiredMi" u changes else set "vram" v changes)
        ≡ has key changes
  skip_memory true u v changes h = rw (has-set key "memoryRequiredMi" u changes) (ground (arith, h))
  skip_memory false u v changes h = rw (has-set key "vram" v changes) (ground (arith, h))

  -- The fields on top of the engine's.
  skip_limits :
      (b r h : Bool) (u v w : Json) (changes : Changes)
      → str_eq "maxOutputTokens" key ≡ false
      → str_eq "allowMemoryRisk" key ≡ false
      → str_eq "memoryRequiredMi" key ≡ false
      → has key (
          when b "maxOutputTokens" u
            (when r "allowMemoryRisk" v (when h "memoryRequiredMi" w changes)))
        ≡ has key changes
  skip_limits b r h u v w changes m a k =
      rw
        (has-when key "maxOutputTokens" b u
          (when r "allowMemoryRisk" v (when h "memoryRequiredMi" w changes)))
        (rw (has-when key "allowMemoryRisk" r v (when h "memoryRequiredMi" w changes)) (
          rw (has-when key "memoryRequiredMi" h w changes)
            (rw (m, a, k) (none_set b r h (has key changes)))))
    where
      none_set : (b r h x : Bool) → (b && false || (r && false || (h && false || x))) ≡ x
      none_set b r h x = ground arith

module _ (to_number : String → ℕ) (to_text : ℕ → String) (c : Common) (s : Standard) (o : Source)
    (options : LocalModelSerializationOptions) where
  abbrev base : Changes
  base = base_fields to_number to_text c options

  abbrev fixed : Changes
  fixed = set "maxNumSeqs" (Json.number c.max_num_seqs) (
      set "contextWindow" (Json.number c.context_window) (
        set "modelType" (Json.text c.model_type) (
          set "computeTarget" (Json.text c.compute_target) (set "engine" (Json.text c.engine) []))))

  not_lower :
      (key : String)
      → str_eq "kvCacheType" key ≡ false
      → str_eq "gpuDeployment" key ≡ false
      → str_eq "gpuDevices" key ≡ false
      → str_eq "gpuDevice" key ≡ false
      → str_eq "cpuResources" key ≡ false
      → has key fixed ≡ false
      → has key (lower_fields to_number to_text c s options) ≡ false
  not_lower key k d ds g r f =
      rw (has-set key "kvCacheType" (Json.text s.kv_cache_type) (gpu_settings s base), k)
        (rw
          (has-assign_devices key (several s.gpu_devices) s.gpu_devices s.gpu_deployment base d ds
            g)
          (rw
            (
              has-when key "cpuResources" (is_some options.cpu_resources)
                  (cpu_text options.cpu_resources) fixed,
              r,
              f,
            )
            (none_set (is_some options.cpu_resources))))
    where
      none_set : (b : Bool) → (b && false || false) ≡ false
      none_set b = ground arith

  abbrev lower : Changes
  lower = lower_fields to_number to_text c s options

  abbrev with_memory : Changes
  with_memory = memory_field to_number to_text c s lower

  abbrev engine : Changes
  engine = engine_fields to_number to_text c s options

  abbrev with_offloading : Changes
  with_offloading =
      when (str_eq c.compute_target "nvidia-gpu") "cpuOffloading" (Json.flag s.cpu_offloading)
        engine

  abbrev limits : Changes
  limits = limit_fields to_number to_text c options (gpu_fields to_number to_text c s engine)

  has_upper :
      (key : String)
      → is_other key ≡ false
      → str_eq "maxOutputTokens" key ≡ false
      → str_eq "allowMemoryRisk" key ≡ false
      → str_eq "memoryRequiredMi" key ≡ false
      → has key (local_model_create to_number to_text c s o options) ≡ has key with_offloading
  unfolding local_model_create
  has_upper key other m a r =
      skip_source key (str_eq o.source "preset" && truthy o.preset_id) (truthy o.artifact_id)
        (Json.text o.artifact_id) (Json.text o.preset_id) (Json.text o.url) limits other
      ∙ skip_limits key (truthy c.max_output_tokens) (or_else options.allow_memory_risk false)
          (s.cpu_offloading || several s.gpu_devices) (Json.number (to_number c.max_output_tokens))
          (Json.flag true) (Json.number s.host_memory_mi) with_offloading m a r

  abbrev on_gpu : Bool
  on_gpu = str_eq c.compute_target "nvidia-gpu"

  abbrev has_settings : Bool
  has_settings = str_eq c.engine "VLLM" && not (nothing (vllm_settings c s options))

  has_fields :
      (key : String)
      → is_other key ≡ false
      → has key lower ≡ false
      → has key with_offloading
        ≡ (on_gpu && str_eq "cpuOffloading" key || (has_settings && str_eq "vllm" key || false))
  has_fields key other low =
      rw (has-when key "cpuOffloading" on_gpu (Json.flag s.cpu_offloading) engine) (
        rw
          (
            has-when key "vllm" has_settings (Json.fields (vllm_settings c s options)) with_memory,
            skip_memory key (str_eq c.compute_target "cpu") (Json.number s.selected_mi)
                (Json.text (to_text s.selected_mi)) lower other,
            low,
          )
          refl)

  has_vllm :
      has "vllm" (local_model_create to_number to_text c s o options) ≡ true
      → str_eq c.engine "VLLM" ≡ true
  has_vllm h = only _ _ _ (
      sym (has_fields "vllm" refl (not_lower "vllm" refl refl refl refl refl refl))
      ∙ (sym (has_upper "vllm" refl refl refl refl) ∙ h))
    where
      only : (g e v : Bool) → (g && false || (e && v && true || false)) ≡ true → e ≡ true
      only g e v h = ground (arith, h)

  has_offloading :
      has "cpuOffloading" (local_model_create to_number to_text c s o options) ≡ true
      → on_gpu ≡ true
  has_offloading h = only on_gpu has_settings (
      sym
        (has_fields "cpuOffloading" refl (not_lower "cpuOffloading" refl refl refl refl refl refl))
      ∙ (sym (has_upper "cpuOffloading" refl refl refl refl) ∙ h))
    where
      only : (g e : Bool) → (g && true || (e && false || false)) ≡ true → g ≡ true
      only g e h = ground (arith, h)

-- Of what a new standard model is created with, the VLLM settings are there only for the engine VLLM,
-- and the key for CPU offloading only on an NVIDIA GPU.
pub local_model_create-engine :
    (to_number : String → ℕ) (to_text : ℕ → String) (c : Common) (s : Standard) (o : Source)
    (options : LocalModelSerializationOptions)
    → let local = local_model_create to_number to_text c s o options in
      (has "vllm" local ≡ true → c.engine ≡ "VLLM")
      × (has "cpuOffloading" local ≡ true → c.compute_target ≡ "nvidia-gpu")
local_model_create-engine to_number to_text c s o options = (
  λ h. (str_eq_iff c.engine "VLLM").0 (has_vllm to_number to_text c s o options h),
  λ h.
      (str_eq_iff c.compute_target "nvidia-gpu").0
        (has_offloading to_number to_text c s o options h),
)

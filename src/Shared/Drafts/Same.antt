-- ===== src/Shared/Drafts/Same.antt =====
-- localModelChanges (local-model-configuration.ts) of a draft that was not edited.
use aippliance_magic_stick.Prelude.{
  ℕ, Bool, true, false, [], String, not, ◌&&◌, ◌||◌, ◌==◌, if◌then◌else◌, ◌≡◌, refl, arith,
}
use aippliance_magic_stick.Prelude.Text.{str_eq, str_eq_refl, str_eq_iff}
use aippliance_magic_stick.Prelude.Result.{ok, err}
use aippliance_magic_stick.Shared.Drafts.{
  Common, Realtime, DraftError, LocalModelDraft, LocalModelSerializationOptions, Changes, identity,
  several, same_flag, needs_host_ram, local_model_changes,
}

same_number : (n : ℕ) → (n == n) ≡ true
same_number n = ground arith

same_flag_refl : (b : Bool) → same_flag b b ≡ true
same_flag_refl true = refl
same_flag_refl false = refl

needs_lem : (b : Bool) → (not b && b) ≡ false
needs_lem true = refl
needs_lem false = refl

and_false : (b : Bool) → (b && false) ≡ false
and_false true = refl
and_false false = refl

vllm_lem : (e d : Bool) → (e && (false || (false && (d || d)))) ≡ false
vllm_lem true d = refl
vllm_lem false d = refl

-- Nothing outside the draft changed.
pub record IsIdle (options : LocalModelSerializationOptions) : Type 0 where
  pub cpu : options.cpu_changed ≡ false
  pub deployment : options.deployment_changed ≡ false

-- An edit that leaves the draft as it was sends no change at all, whatever the memory risk option
-- says, unless the CPU resources or the deployment settings outside the draft were changed.
pub local_model_changes-same :
    (to_number : String → ℕ) (draft : LocalModelDraft) (options : LocalModelSerializationOptions)
    → IsIdle options
    → local_model_changes to_number draft draft options ≡ ok []
unfolding local_model_changes
local_model_changes-same to_number (LocalModelDraft.standard c s) options idle =
    rw
      (
        str_eq_refl c.engine,
        str_eq_refl c.compute_target,
        same_number c.max_num_seqs,
        same_number c.context_window,
        idle.cpu,
        idle.deployment,
        str_eq_refl c.model_type,
        str_eq_refl c.max_output_tokens,
        str_eq_refl s.kv_cache_type,
        same_number s.selected_mi,
        same_flag_refl s.cpu_offloading,
        str_eq_refl (identity s.gpu_devices),
        str_eq_refl s.gpu_deployment,
        str_eq_refl s.parallelism,
        same_number s.host_memory_mi,
        needs_lem (needs_host_ram s),
        and_false (needs_host_ram s),
        vllm_lem (str_eq c.engine "VLLM") (several s.gpu_devices),
      )
      refl
local_model_changes-same to_number (LocalModelDraft.omni c r) options idle =
    rw
      (
        str_eq_refl c.engine,
        str_eq_refl c.compute_target,
        str_eq_refl r.profile,
        str_eq_refl r.json,
        same_number c.max_num_seqs,
        same_number c.context_window,
        idle.cpu,
      )
      refl

-- An accepted edit of a Realtime model has the engine, the hardware target and the profile of the
-- initial draft.
pub local_model_changes-ok :
    (to_number : String → ℕ) (initial draft : Common) (before after : Realtime)
    (options : LocalModelSerializationOptions) (changes : Changes)
    → local_model_changes to_number
        (LocalModelDraft.omni initial before)
        (LocalModelDraft.omni draft after)
        options
      ≡ ok changes
    → (initial.engine ≡ draft.engine)
      × (initial.compute_target ≡ draft.compute_target)
      × (after.profile ≡ before.profile)
unfolding local_model_changes
local_model_changes-ok to_number initial draft before after options changes h =
    let t = tests_lem _ _ _ _ h in
    (
      (str_eq_iff initial.engine draft.engine).0 t.0,
      (str_eq_iff initial.compute_target draft.compute_target).0 t.1,
      (str_eq_iff after.profile before.profile).0 t.2,
    )
  where
    tests_lem :
        (e c p : Bool) (r : Changes)
        → (if e && c
            then (if p then ok r else err DraftError.profile_changed)
            else err DraftError.target_changed)
          ≡ ok changes
        → (e ≡ true) × (c ≡ true) × (p ≡ true)
    tests_lem true true true r h = (refl, refl, refl)
    tests_lem true true false r h = absurd (ground (arith, h))
    tests_lem true false p r h = absurd (ground (arith, h))
    tests_lem false c p r h = absurd (ground (arith, h))

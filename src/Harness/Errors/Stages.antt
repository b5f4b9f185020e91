-- ===== src/Harness/Errors/Stages.antt =====
-- The stage names of dashboard/apps/web/regression/core/errors.ts.
use aippliance_magic_stick.Prelude.{Option, List, [], ◌∷◌, String, find}
use aippliance_magic_stick.Prelude.Text.{str_eq}

-- The members of `stages`.
pub data Stage : Type 0 where
  preflight host_boot host_readiness login_form login_return login_session kubernetes_access
        kubernetes_revoke kubeconfig_export kubeconfig_copy kubeconfig_download model_estimate
        model_create model_ready module_ready app_ready gateway_ready model_stopped model_failure
        external_ready external_stopped cleanup license_review license_activate license_reject
        license_restart license_restore recovery_barrier recovery_journal recovery_resource
        recovery_module recovery_sharing report_evidence report_export baseline_models baseline_pods
        baseline_intents baseline_claims baseline_routes baseline_host baseline_keys flux_ready
        gpu_backend gpu_binding gpu_validation gpu_slots model_route model_inference model_update
        companion_evidence runner_execution :
      Stage

-- The source's spelling of a stage.
unfoldable pub stage_key : Stage → String
stage_key Stage.preflight = "preflight"
stage_key Stage.host_boot = "host-boot"
stage_key Stage.host_readiness = "host-readiness"
stage_key Stage.login_form = "login-form"
stage_key Stage.login_return = "login-return"
stage_key Stage.login_session = "login-session"
stage_key Stage.kubernetes_access = "kubernetes-access"
stage_key Stage.kubernetes_revoke = "kubernetes-revoke"
stage_key Stage.kubeconfig_export = "kubeconfig-export"
stage_key Stage.kubeconfig_copy = "kubeconfig-copy"
stage_key Stage.kubeconfig_download = "kubeconfig-download"
stage_key Stage.model_estimate = "model-estimate"
stage_key Stage.model_create = "model-create"
stage_key Stage.model_ready = "model-ready"
stage_key Stage.module_ready = "module-ready"
stage_key Stage.app_ready = "app-ready"
stage_key Stage.gateway_ready = "gateway-ready"
stage_key Stage.model_stopped = "model-stopped"
stage_key Stage.model_failure = "model-failure"
stage_key Stage.external_ready = "external-ready"
stage_key Stage.external_stopped = "external-stopped"
stage_key Stage.cleanup = "cleanup"
stage_key Stage.license_review = "license-review"
stage_key Stage.license_activate = "license-activate"
stage_key Stage.license_reject = "license-reject"
stage_key Stage.license_restart = "license-restart"
stage_key Stage.license_restore = "license-restore"
stage_key Stage.recovery_barrier = "recovery-barrier"
stage_key Stage.recovery_journal = "recovery-journal"
stage_key Stage.recovery_resource = "recovery-resource"
stage_key Stage.recovery_module = "recovery-module"
stage_key Stage.recovery_sharing = "recovery-sharing"
stage_key Stage.report_evidence = "report-evidence"
stage_key Stage.report_export = "report-export"
stage_key Stage.baseline_models = "baseline-models"
stage_key Stage.baseline_pods = "baseline-pods"
stage_key Stage.baseline_intents = "baseline-intents"
stage_key Stage.baseline_claims = "baseline-claims"
stage_key Stage.baseline_routes = "baseline-routes"
stage_key Stage.baseline_host = "baseline-host"
stage_key Stage.baseline_keys = "baseline-keys"
stage_key Stage.flux_ready = "flux-ready"
stage_key Stage.gpu_backend = "gpu-backend"
stage_key Stage.gpu_binding = "gpu-binding"
stage_key Stage.gpu_validation = "gpu-validation"
stage_key Stage.gpu_slots = "gpu-slots"
stage_key Stage.model_route = "model-route"
stage_key Stage.model_inference = "model-inference"
stage_key Stage.model_update = "model-update"
stage_key Stage.companion_evidence = "companion-evidence"
stage_key Stage.runner_execution = "runner-execution"

-- `stages`.
abbrev pub all_stages : List Stage
all_stages =
    Stage.preflight ∷ Stage.host_boot ∷ Stage.host_readiness ∷ Stage.login_form ∷ Stage.login_return
    ∷ Stage.login_session ∷ Stage.kubernetes_access ∷ Stage.kubernetes_revoke
    ∷ Stage.kubeconfig_export ∷ Stage.kubeconfig_copy ∷ Stage.kubeconfig_download
    ∷ Stage.model_estimate ∷ Stage.model_create ∷ Stage.model_ready ∷ Stage.module_ready
    ∷ Stage.app_ready ∷ Stage.gateway_ready ∷ Stage.model_stopped ∷ Stage.model_failure
    ∷ Stage.external_ready ∷ Stage.external_stopped ∷ Stage.cleanup ∷ Stage.license_review
    ∷ Stage.license_activate ∷ Stage.license_reject ∷ Stage.license_restart ∷ Stage.license_restore
    ∷ Stage.recovery_barrier ∷ Stage.recovery_journal ∷ Stage.recovery_resource
    ∷ Stage.recovery_module ∷ Stage.recovery_sharing ∷ Stage.report_evidence ∷ Stage.report_export
    ∷ Stage.baseline_models ∷ Stage.baseline_pods ∷ Stage.baseline_intents ∷ Stage.baseline_claims
    ∷ Stage.baseline_routes ∷ Stage.baseline_host ∷ Stage.baseline_keys ∷ Stage.flux_ready
    ∷ Stage.gpu_backend ∷ Stage.gpu_binding ∷ Stage.gpu_validation ∷ Stage.gpu_slots
    ∷ Stage.model_route ∷ Stage.model_inference ∷ Stage.model_update ∷ Stage.companion_evidence
    ∷ Stage.runner_execution ∷ []

-- `stages.includes(s)`, with the stage that it names.
unfoldable pub stage_of : String → Option Stage
unfolding stage_key
stage_of s = find (λ c. str_eq (stage_key c) s) all_stages

-- ===== src/Harness/OwnedModel/Tests.antt =====
-- Examples for owned-model.ts.
use aippliance_magic_stick.Prelude.{
  ℕ, Bool, true, false, Option, none, some, [], ◌∷◌, String, ◌≡◌, refl, length,
}
use aippliance_magic_stick.Prelude.Result.{ok}
use aippliance_magic_stick.Prelude.Keeps.{Returns}
use aippliance_magic_stick.Prelude.Text.{codes}
use aippliance_magic_stick.Harness.OwnedModel.{
  Json, text, num, obj, end, field, Js, Client, ModelActivation, RuntimeModelFixture, edit_revision,
  revision_uid,
}
use aippliance_magic_stick.Harness.OwnedModel.Fence.{Method, Call, Ports, Cell, fence, transport}
use aippliance_magic_stick.Harness.OwnedModel.Methods.{Reader, start}
use aippliance_magic_stick.Harness.OwnedModel.Advances.{
  start_it, perform, IsAdvanced, perform-IsAdvanced,
}
use aippliance_magic_stick.Harness.OwnedModel.Unowned.{Harmless, fence-of_unowned}
use aippliance_magic_stick.Harness.OwnedModel.Pods.{
  ContainerStatus, Pod, has_runtime_crash_loop, owned_runtime_pods,
}

-- JSON.parse of the one body of each example.
abbrev js_of : Json → Js
js_of body = record {
  stringify = λ j. "body";
  parse = λ s. some body;
  show = λ n. "3";
  encode = λ s. s;
}

abbrev fixture : RuntimeModelFixture
fixture = record {
  compute_target = "cpu";
  engine = "OLlama";
  url = "ollama://tiny";
  context_window = 2048;
  memory_required_mi = 2048;
  kv_cache_type = some "f16";
  realtime = none;
  gpu_devices = none;
  gpu_deployment = none;
  system_memory_mi = 0;
  vllm = none;
}

abbrev client_of : Option String → Client
client_of uid = record {
  name = "reg-model";
  fixture = fixture;
  owned_uid = uid;
  allow_memory_risk = false;
}

abbrev model : Bool → ℕ → ModelActivation
model enabled generation = record {
  uid = some "u-1";
  name = some "reg-model";
  namespace = some "ai-system";
  generation = some generation;
  resource_version = some "9";
  enabled = some enabled;
  context_window = some 2048;
}

abbrev start_js : Js
start_js = js_of (obj (field "expectedRevision" (text "generation:u-1:3") end))

revision_now : edit_revision start_js (model false 3) ≡ "generation:u-1:3"
unfolding edit_revision
revision_now = refl

revision_of_uid : revision_uid "generation:u-1:3" ≡ some (codes "u-1")
unfolding revision_uid
revision_of_uid = refl

abbrev server : Ports (Unit {0})
server = record {
  fetch = λ r w. (ok (record { status = 200; is_json = true; length = 2; text = "" }), w);
  assert_mutation_allowed = λ w. (ok tt, w);
  base_origin = "https://appliance";
}

abbrev reader : Reader
reader = record {
  activations = λ r. ok [];
  created = λ r. ok (model true 4);
  activated = λ r. ok (some (model true 4));
}

abbrev owning : Cell (Unit {0})
owning = record { client = client_of (some "u-1"); world = tt }

start_returns :
    start start_js server reader (model false 3) owning
    ≡ (ok (record { uid = "u-1"; generation = 4 }), owning)
unfolding start transport fence revision_uid edit_revision
start_returns = refl

perform-IsAdvanced_example :
    Returns
      (λ r (s : Cell (Unit {0})).
        IsAdvanced (some "u-1") (some 3) r × (s.client ≡ client_of (some "u-1")))
      (perform start_js server reader start_it (model false 3) owning)
perform-IsAdvanced_example =
    perform-IsAdvanced start_js server reader start_it (model false 3) owning

-- An edit with the revision "7", sent while no uid is owned.
abbrev edit_js : Js
edit_js = js_of (
    obj (
      field "expectedRevision" (text "7")
        (field "local" (obj (field "contextWindow" (num 4096) end)) end)))

abbrev edit : Call
edit = record {
  method = Method.put;
  origin = "https://appliance";
  pathname = "/api/models/reg-model";
  search = "";
  params = [];
  hash = "";
  body = some "body";
}

edit_passes : fence edit_js (client_of none) "https://appliance" edit ≡ ok tt
unfolding fence revision_uid
edit_passes = refl

fence-of_unowned_example : Harmless edit_js (client_of none) edit Method.put
fence-of_unowned_example =
    fence-of_unowned edit_js (client_of none) "https://appliance" edit refl edit_passes

abbrev crashed : ContainerStatus
crashed = record {
  restart_count = some 3;
  exit_code = none;
  waiting_reason = some "CrashLoopBackOff";
  last_exit_code = some 1;
}

abbrev pod : Pod
pod = record {
  uid = "p";
  namespace = some "ai";
  labels = ("app", "model") ∷ ("model", "reg-model") ∷ [];
  owners = record { kind = "Model"; name = "reg-model"; controller = true } ∷ [];
  conditions = [];
  containers = crashed ∷ [];
  init_containers = [];
}

crash_loop : has_runtime_crash_loop pod ≡ true
unfolding has_runtime_crash_loop
crash_loop = refl

one_pod : length (owned_runtime_pods (pod ∷ []) "reg-model") ≡ 1
unfolding owned_runtime_pods
one_pod = refl

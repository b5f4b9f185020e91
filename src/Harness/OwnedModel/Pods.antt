-- ===== src/Harness/OwnedModel/Pods.antt =====
-- The pods and the catalogue entries of an owned model (owned-model.ts).
use aippliance_magic_stick.Prelude.{
  ℕ, Bool, true, false, Option, none, some, List, [], ◌∷◌, ◌++◌, String, ◌&&◌, ◌||◌, not, or_else,
  leb, ◌==◌, any, find, filter, length,
}
use aippliance_magic_stick.Prelude.Result.{Action, ◌>>◌}
use aippliance_magic_stick.Prelude.Text.{str_eq, same_text, includes, truthy, Labels, lookup}
use aippliance_magic_stick.Harness.Errors.{ReasonCode, Thrown, require_safe}
use aippliance_magic_stick.Harness.OwnedModel.{RuntimeModelFixture}

pub record OwnerReference : Type 0 where
  pub kind : String
  pub name : String
  pub controller : Bool

-- A container's exit code is known where it is a number.
pub record ContainerStatus : Type 0 where
  pub restart_count : Option ℕ
  pub exit_code : Option ℕ
  pub waiting_reason : Option String
  pub last_exit_code : Option ℕ

pub record Condition : Type 0 where
  pub type : String
  pub status : String

-- A pod; `uid` stands for the identity of the object in the list.
pub record Pod : Type 0 where
  pub uid : String
  pub namespace : Option String
  pub labels : Labels
  pub owners : List OwnerReference
  pub conditions : List Condition
  pub containers : List ContainerStatus
  pub init_containers : List ContainerStatus

abbrev label_is : Pod → String → String → Bool
label_is pod key value = same_text (lookup pod.labels key) (some value)

abbrev has_label : Pod → String → Bool
has_label pod key = truthy (or_else (lookup pod.labels key) "")

-- A replica: a pod of the activation that its Model controls.
unfoldable pub is_replica : String → Pod → Bool
is_replica name pod =
    same_text pod.namespace (some "ai")
    && label_is pod "app" "model"
    && label_is pod "appliance.magicstick.dev/modelactivation" name
    && label_is pod "appliance.magicstick.dev/model-replica" "true"
    && has_label pod "appliance.magicstick.dev/activation-uid"
    && any
        (λ (owner : OwnerReference).
          str_eq owner.kind "Model"
          && same_text (some owner.name) (lookup pod.labels "model")
          && owner.controller)
        pod.owners

unfoldable pub is_model_pod : String → Pod → Bool
is_model_pod name pod =
    same_text pod.namespace (some "ai")
    && label_is pod "app" "model"
    && label_is pod "model" name
    && (any
          (λ (owner : OwnerReference).
            str_eq owner.kind "Model" && str_eq owner.name name && owner.controller)
          pod.owners
        || label_is pod "appliance.magicstick.dev/modelactivation" name
          && label_is pod "app.kubernetes.io/managed-by" "magicstick-operator"
          && includes ("realtime" ∷ [])
              (or_else (lookup pod.labels "appliance.magicstick.dev/runtime-backend") "")
          && any (λ (owner : OwnerReference). str_eq owner.kind "ReplicaSet" && owner.controller)
              pod.owners)

-- `ownedRuntimePods(pods, name)`: the replicas, then the other pods of the model.
unfoldable pub owned_runtime_pods : List Pod → String → List Pod
unfolding is_replica is_model_pod
owned_runtime_pods pods name =
    filter (is_replica name) pods
    ++ filter (λ pod. not (is_replica name pod) && is_model_pod name pod) pods

abbrev nonzero : Option ℕ → Bool
nonzero none = true
nonzero (some n) = not (n == 0)

abbrev known_nonzero : Option ℕ → Bool
known_nonzero none = false
known_nonzero (some n) = not (n == 0)

abbrev at_least_three : Option ℕ → Bool
at_least_three none = false
at_least_three (some n) = leb 3 n && leb n 9007199254740991

unfoldable pub is_crashing : ContainerStatus → Bool
is_crashing c =
    at_least_three c.restart_count
    && nonzero c.exit_code
    && (same_text c.waiting_reason (some "CrashLoopBackOff") || known_nonzero c.last_exit_code)

-- `hasRuntimeCrashLoop(pod)`
unfoldable pub has_runtime_crash_loop : Pod → Bool
unfolding is_crashing
has_runtime_crash_loop pod =
    not (any (λ (c : Condition). str_eq c.type "Ready" && str_eq c.status "True") pod.conditions)
    && any is_crashing (pod.containers ++ pod.init_containers)

-- `remainingModelResources`, from what the two reads returned.
pub record Remaining : Type 0 where
  pub pod_count : ℕ
  pub catalog_count : ℕ

unfoldable pub remaining_model_resources : List Pod → List String → String → Remaining
remaining_model_resources pods models name = record {
  pod_count = length (owned_runtime_pods pods name);
  catalog_count = length (filter (λ id. str_eq id name) models);
}

-- A compute target: its engines, and those that are marked as unavailable.
pub record Target : Type 0 where
  pub id : String
  pub available : Bool
  pub engines : List String
  pub unavailable : List String

pub record Variant : Type 0 where
  pub engine : String
  pub compute_target : String
  pub url : Option String
  pub artifacts : List (Option String)

abbrev offers : RuntimeModelFixture → Option Target → Bool
offers fixture none = false
offers fixture (some target) =
    target.available
    && includes target.engines fixture.engine
    && not (includes target.unavailable fixture.engine)

abbrev is_variant : RuntimeModelFixture → Variant → Bool
is_variant fixture v =
    str_eq v.engine fixture.engine
    && str_eq v.compute_target fixture.compute_target
    && (same_text v.url (some fixture.url)
        || any (λ url. same_text url (some fixture.url)) v.artifacts)

-- `fixtureIsAdvertised(payload, fixture)`
unfoldable pub fixture_is_advertised :
    {S : Type 0} → List Target → List Variant → RuntimeModelFixture → Action Thrown S (Unit {0})
fixture_is_advertised targets variants fixture = do
  require_safe (offers fixture (find (λ (t : Target). str_eq t.id fixture.compute_target) targets))
      ReasonCode.capability
  require_safe (not (str_eq fixture.compute_target "cpu") || any (is_variant fixture) variants)
      ReasonCode.capability

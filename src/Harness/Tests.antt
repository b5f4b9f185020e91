-- ===== src/Harness/Tests.antt =====
-- Examples for lock-recovery.ts, gateway-stability.ts and run-lifecycle.ts.
use aippliance_magic_stick.Prelude.{
  ℕ, ◌<◌, true, false, Option, none, some, List, [], ◌∷◌, String, length, All, ◌≡◌, refl,
}
use aippliance_magic_stick.Prelude.Text.{str_eq, same_text, is_uuid, is_run_id}
use aippliance_magic_stick.Prelude.Result.{err, Action}
use aippliance_magic_stick.Harness.Lease.Data.{Lease}
use aippliance_magic_stick.Harness.Lease.Holder.{
  has_holder, renewed_at, is_expired, lease_holder_reason,
}
use aippliance_magic_stick.Harness.Recovery.{
  RecoveryLock, parse_recovery_lock, is_confirmed, is_drained, exact_recovery_lock,
  exact_recovery_lock-ok,
}
use aippliance_magic_stick.Harness.Teardown.{first_failure, with_cleanup, with_cleanup-runs}
use aippliance_magic_stick.Harness.Gateway.{
  GatewayProcess, is_gateway_stable, Listed, IsStable, is_gateway_stable-All,
}
use aippliance_magic_stick.Harness.Heartbeat.{
  Event, HeartbeatLoop, new_loop, handle, IsSingle, run-IsFinal, run-IsSingle,
}
use aippliance_magic_stick.Harness.Heartbeat

abbrev date_parse : String → Option ℕ
date_parse s = some 5000

abbrev stale_lease : Lease
stale_lease = record {
  api_version = "coordination.k8s.io/v1";
  kind = "Lease";
  metadata = record {
    name = "lab-lock";
    namespace = "magicstick-regression";
    uid = some "01234567-89ab-cdef-0123-456789abcdef";
    resource_version = "7";
    labels = [];
    annotations = none;
  };
  spec = record {
    holder_identity = some "reg-01234567-89ab-cdef-0123-456789abcdef";
    renew_time = some "2026-01-01T00:00:05.000000Z";
    lease_duration_seconds = some 60;
  };
}

abbrev lock : RecoveryLock
lock = record {
  uid = "01234567-89ab-cdef-0123-456789abcdef";
  resource_version = "7";
  run_id = "reg-01234567-89ab-cdef-0123-456789abcdef";
  released = false;
}

exact_recovery_lock-ok_example :
    (same_text stale_lease.metadata.uid (some lock.uid) ≡ true)
    × (str_eq stale_lease.metadata.resource_version lock.resource_version ≡ true)
    × (lock.released ≡ true → has_holder stale_lease.spec ≡ false)
    × (lock.released ≡ false → has_holder stale_lease.spec ≡ true)
    × (lock.released ≡ false
        → is_expired date_parse stale_lease.spec.lease_duration_seconds
            (renewed_at date_parse stale_lease.spec.renew_time)
            60000
            125000
          ≡ true)
unfolding exact_recovery_lock parse_recovery_lock is_confirmed is_drained is_uuid is_run_id
    lease_holder_reason
exact_recovery_lock-ok_example = exact_recovery_lock-ok date_parse stale_lease lock 125000 refl

-- An action that fails, and a cleanup that counts its runs and fails too.
abbrev failing : Action ℕ ℕ String
failing n = (err 1, n)

abbrev counting : Action ℕ ℕ (Unit {0})
counting n = (err 2, 7)

with_cleanup-runs_example :
    with_cleanup failing counting 0
    ≡ (first_failure (failing 0).0 (counting (failing 0).1).0, (counting (failing 0).1).1)
with_cleanup-runs_example = with_cleanup-runs failing counting 0

abbrev gateway : List GatewayProcess
gateway =
    record { uid = "a"; container_id = "c"; restarts = 1; ready = true; last_exit_code = none } ∷ []

is_gateway_stable-All_example :
    (0 < length gateway)
    × (length gateway ≡ length gateway)
    × All (λ original. Listed (IsStable original) gateway) gateway
unfolding is_gateway_stable
is_gateway_stable-All_example = is_gateway_stable-All gateway gateway refl

abbrev events : List Event
events = Event.fire ∷ Event.renewed ∷ Event.tick ∷ Event.stop ∷ []

-- Started, and its timer has fired: the first renewal is pending.
abbrev renewing : HeartbeatLoop
renewing = record new_loop { pending = true; waiting = 1; renewals = 1 }

renewing_lem : Heartbeat.run (Event.start ∷ Event.fire ∷ []) new_loop ≡ renewing
unfolding Heartbeat.run handle
renewing_lem = refl

run-IsFinal_example :
    ((Heartbeat.run events (handle (Event.refused true) renewing)).failure ≡ true)
    × ((Heartbeat.run events (handle (Event.refused true) renewing)).renewals ≡ 1)
run-IsFinal_example = run-IsFinal renewing events refl

run-IsSingle_example : IsSingle (Heartbeat.run events (handle Event.start new_loop))
run-IsSingle_example = run-IsSingle events refl

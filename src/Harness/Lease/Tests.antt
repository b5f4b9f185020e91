-- ===== src/Harness/Lease/Tests.antt =====
-- Examples for lease.ts: an appliance lease in memory, and a clock that advances by a second.
use aippliance_magic_stick.Prelude.{
  ℕ, ◌+◌, ◌≤◌, ◌<◌, arith, true, false, Option, none, some, String, List, [], ◌∷◌, ◌≡◌, refl,
}
use aippliance_magic_stick.Prelude.Result.{ok, err}
use aippliance_magic_stick.Harness.Errors.{ReasonCode, of_code}
use aippliance_magic_stick.Harness.Lease.Data.{Lease, new_lease}
use aippliance_magic_stick.Harness.Lease.Ports.{Ports, Cell, Receipt}
use aippliance_magic_stick.Harness.Lease.Holder.{lease_holder_reason}
use aippliance_magic_stick.Harness.Lease.Checks.{
  is_lab_lease, check_held, assert_held_internal, record_state,
}
use aippliance_magic_stick.Harness.Lease.Methods.{acquire_internal, heartbeat_internal, claim}
use aippliance_magic_stick.Harness.Lease.Window.{Method, perform, run}
use aippliance_magic_stick.Harness.Lease.Fence.{run-of_fenced}
use aippliance_magic_stick.Harness.Lease.Outcome.{
  Fences, perform-Fences, acquire_internal-of_holder,
}

pub record World : Type 0 where
  pub lease : Lease
  pub time : ℕ
  pub receipts : List Receipt

abbrev ports : Ports World
ports = record {
  read = λ w. (ok w.lease, w);
  replace = λ l w. (ok l, record w { lease = l });
  now = λ w. (w.time, record w { time = w.time + 1000 });
  write_receipt = λ r w. (ok tt, record w { receipts = r ∷ w.receipts });
  run_uid = none;
  date_parse = λ _. some 5000;
  to_iso_string = λ _. "2026-01-01T00:00:05.000Z";
}

abbrev lease_of : Option String → Lease
lease_of holder = record {
  api_version = "coordination.k8s.io/v1";
  kind = "Lease";
  metadata = record {
    name = "lab-lock";
    namespace = "magicstick-regression";
    uid = some "lease-uid";
    resource_version = "7";
    labels = ("regression.magicstick.dev/appliance-uid", "target") ∷ [];
    annotations = none;
  };
  spec = record {
    holder_identity = holder;
    renew_time = some "2026-01-01T00:00:05.000000Z";
    lease_duration_seconds = some 60;
  };
}

abbrev owner : String
owner = "reg-01234567-89ab-cdef-0123-456789abcdef"

abbrev cell_of : Option String → Cell World
cell_of holder = record {
  lab = record {
    owner = owner;
    target_uid = "target";
    duration_seconds = 60;
    ordinary_duration_seconds = 60;
    offline_reserved = false;
    held = false;
    fenced = false;
    last_heartbeat = 0;
    receipt = none;
  };
  world = record { lease = lease_of holder; time = 6000; receipts = [] };
}

new_lease_example : new_lease owner "target" 60 none ≡ (cell_of none).lab
unfolding new_lease
new_lease_example = refl

-- A free lease is taken and renewed.
taken : (run ports (Method.acquire none ∷ Method.heartbeat ∷ []) (cell_of none)).lab.held ≡ true
unfolding run perform heartbeat_internal assert_held_internal check_held acquire_internal
    is_lab_lease lease_holder_reason claim record_state
taken = refl

abbrev fenced_cell : Cell World
fenced_cell = record (cell_of none) { lab = record ((cell_of none).lab) { fenced = true } }

run-of_fenced_example :
    ((run ports (Method.acquire none ∷ Method.release ∷ []) fenced_cell).world ≡ fenced_cell.world)
    × ((run ports (Method.acquire none ∷ Method.release ∷ []) fenced_cell).lab.fenced ≡ true)
run-of_fenced_example =
    run-of_fenced ports (Method.acquire none ∷ Method.release ∷ []) fenced_cell refl

perform-Fences_example : Fences (perform ports Method.heartbeat (cell_of (some "other")))
perform-Fences_example = perform-Fences ports Method.heartbeat tt (cell_of (some "other"))

abbrev after_read : Cell World
after_read = record (cell_of (some "other")) {
  world = record { lease = lease_of (some "other"); time = 7000; receipts = [] };
}

-- Renewed at 5000 for sixty seconds, and the clock shows 6000.
acquire_internal-of_holder_example :
    (65000 ≤ 6000
      → acquire_internal ports none (cell_of (some "other"))
        ≡ (err (of_code ReasonCode.lock_stale), after_read))
    × (6000 < 65000
        → acquire_internal ports none (cell_of (some "other"))
          ≡ (err (of_code ReasonCode.lock_busy), after_read))
unfolding is_lab_lease
acquire_internal-of_holder_example =
    acquire_internal-of_holder ports none (cell_of (some "other")) (lease_of (some "other")) "other"
      60 5000 6000 (cell_of (some "other")).world after_read.world refl refl refl refl refl refl
      refl (omega arith) refl refl

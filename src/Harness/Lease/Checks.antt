-- ===== src/Harness/Lease/Checks.antt =====
-- The checks that every method of LabLease makes (lease.ts): `validate`, `assertHeldInternal`, and
-- the fence that a failure leaves behind.
use aippliance_magic_stick.Prelude.{
  ℕ, ◌+◌, ◌*◌, Bool, true, false, Option, none, some, String, not, ◌&&◌, ltb, leb, ◌==◌,
  if◌then◌else◌, is_some,
}
use aippliance_magic_stick.Prelude.Result.{ok, err, Action, pure, throw, try_catch, ◌>>=◌, ◌>>◌}
use aippliance_magic_stick.Prelude.Text.{truthy, str_eq, same_text, lookup, is_run_id}
use aippliance_magic_stick.Harness.Errors.{ReasonCode, Thrown, of_code, require_safe}
use aippliance_magic_stick.Harness.Lease.Data.{Lease, LabLease}
use aippliance_magic_stick.Harness.Lease.Holder.{renewed_at}
use aippliance_magic_stick.Harness.Lease.Ports.{Ports, Cell, Receipt, ReceiptState, micro_time}

-- The condition of `validate`: the lease is the pre-provisioned one of this appliance.
unfoldable pub is_lab_lease : String → Lease → Bool
is_lab_lease target lease =
    str_eq lease.kind "Lease"
    && str_eq lease.api_version "coordination.k8s.io/v1"
    && str_eq lease.metadata.namespace "magicstick-regression"
    && str_eq lease.metadata.name "lab-lock"
    && truthy lease.metadata.resource_version
    && same_text (lookup lease.metadata.labels "regression.magicstick.dev/appliance-uid")
        (some target)

-- `lease.spec.leaseDurationSeconds === seconds`
abbrev pub has_duration : Option ℕ → ℕ → Bool
has_duration none seconds = false
has_duration (some d) seconds = d == seconds

abbrev pub held_by : Lease → String → Bool
held_by lease owner = same_text lease.spec.holder_identity (some owner)

module _ {W : Type 0} (ports : Ports W) where
  open ports use {read, replace, now, write_receipt, run_uid, date_parse, to_iso_string}

  abbrev pub on_world : {A : Type 0} → Action Thrown W A → Action Thrown (Cell W) A
  on_world m c = let (r, w) = m c.world in (r, record c { world = w })

  -- `this.now()`
  abbrev pub clock : Action Thrown (Cell W) ℕ
  clock c = let (t, w) = now c.world in (ok t, record c { world = w })

  abbrev pub set_lab : (LabLease → LabLease) → Action Thrown (Cell W) (Unit {0})
  set_lab f c = (ok tt, record c { lab = f c.lab })

  abbrev pub validate : Lease → Action Thrown (Cell W) (Unit {0})
  validate lease c = require_safe (is_lab_lease c.lab.target_uid lease) ReasonCode.identity c

  -- `const lease = await this.store.read(); this.validate(lease);`
  abbrev pub read_valid : Action Thrown (Cell W) Lease
  read_valid = do lease ← on_world read; validate lease; pure lease

  abbrev pub lease_time : ℕ → String
  lease_time t = micro_time (to_iso_string t)

  -- `this.held = false; this.fenced = true; throw new HarnessError('LOCK_LOST')`
  abbrev pub fence : {A : Type 0} → Action Thrown (Cell W) A
  fence c = (
    err (of_code ReasonCode.lock_lost),
    record c { lab = record (c.lab) { held = false; fenced = true } },
  )

  abbrev pub fencing : {A : Type 0} → Action Thrown (Cell W) A → Action Thrown (Cell W) A
  fencing m = try_catch m (λ _. fence)

  abbrev pub reading : Bool → Action Thrown (Cell W) Bool
  reading false c = (ok false, c)
  reading true c =
      let (t, w) = now c.world in
      (ok (ltb t (c.lab.last_heartbeat + c.lab.duration_seconds * 1000)), record c { world = w })

  abbrev pub second_reading : ℕ → Action Thrown (Cell W) Bool
  second_reading t c = reading (leb c.lab.last_heartbeat t) c

  -- `now() >= last && now() - last < seconds * 1000`, with a clock reading for each side.
  abbrev pub in_heartbeat : Action Thrown (Cell W) Bool
  in_heartbeat = do t ← clock; second_reading t

  -- `this.held && !this.fenced && …`
  abbrev pub is_live : Action Thrown (Cell W) Bool
  is_live c = if c.lab.held && not c.lab.fenced then in_heartbeat c else (ok false, c)

  -- `now() < Date.parse(renewTime!) + seconds * 1000`; NaN compares as false.
  abbrev pub before_expiry : Option ℕ → Action Thrown (Cell W) Bool
  before_expiry none = pure false
  before_expiry (some renewed) = do
    t ← clock
    λ c. (ok (ltb t (renewed + c.lab.duration_seconds * 1000)), c)

  -- The lease is ours, unresized and unexpired.
  abbrev pub is_ours : Lease → Action Thrown (Cell W) Bool
  is_ours lease c =
      if held_by lease c.lab.owner
        && has_duration lease.spec.lease_duration_seconds c.lab.duration_seconds
      then before_expiry (renewed_at date_parse lease.spec.renew_time) c
      else (ok false, c)

  -- The body of the `try` in assertHeldInternal.
  unfoldable pub check_held : Action Thrown (Cell W) (Unit {0})
  check_held = do
    live ← is_live
    require_safe live ReasonCode.lock_lost
    lease ← read_valid
    ours ← is_ours lease
    require_safe ours ReasonCode.lock_lost

  unfoldable pub assert_held_internal : Action Thrown (Cell W) (Unit {0})
  assert_held_internal = fencing check_held

  -- The private method `record`.
  abbrev receipt_of : LabLease → Option String → Option String → ReceiptState → Option Receipt
  receipt_of lab (some run_id) (some uid) state =
      if is_run_id lab.owner
      then some (record {
        run_id = run_id;
        target_uid = lab.target_uid;
        lease_uid = uid;
        owner = lab.owner;
        state = state;
      })
      else none
  receipt_of lab _ _ state = none

  abbrev write_or_refuse : Option Receipt → Action Thrown (Cell W) (Unit {0})
  write_or_refuse none = throw (of_code ReasonCode.ownership)
  write_or_refuse (some receipt) = on_world (write_receipt receipt)

  unfoldable pub record_state : ReceiptState → Lease → Action Thrown (Cell W) (Unit {0})
  record_state state lease c =
      if is_some c.lab.receipt
      then write_or_refuse (receipt_of c.lab c.lab.receipt lease.metadata.uid state) c
      else (ok tt, c)

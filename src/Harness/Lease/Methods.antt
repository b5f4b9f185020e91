-- ===== src/Harness/Lease/Methods.antt =====
-- The methods of LabLease (lease.ts).
use aippliance_magic_stick.Prelude.{
  ℕ, Bool, true, false, Option, none, some, String, not, ◌&&◌, ◌||◌, ◌==◌, if◌then◌else◌, or_else,
  [],
}
use aippliance_magic_stick.Prelude.Result.{ok, Action, pure, throw, try_catch, attempt, ◌>>=◌, ◌>>◌}
use aippliance_magic_stick.Prelude.Text.{
  truthy, str_eq, same_text, lookup, put, Labels, is_run_id, is_uuid,
}
use aippliance_magic_stick.Harness.Errors.{ReasonCode, Thrown, of_code, require_safe}
use aippliance_magic_stick.Harness.Lease.Data.{Lease, LabLease}
use aippliance_magic_stick.Harness.Lease.Holder.{renewed_at, is_expired, lease_holder_reason}
use aippliance_magic_stick.Harness.Lease.Ports.{Ports, Cell, ReceiptState}
use aippliance_magic_stick.Harness.Lease.Checks.{
  held_by, on_world, clock, set_lab, validate, read_valid, lease_time, fencing, fence, is_live,
  assert_held_internal, record_state,
}

abbrev pub recovering_key : String
recovering_key = "regression.magicstick.dev/recovering"

abbrev pub original_owner_key : String
original_owner_key = "regression.magicstick.dev/recovery-original-owner"

abbrev pub run_id_key : String
run_id_key = "regression.magicstick.dev/run-id"

abbrev with_run_uid : Option String → Labels → Labels
with_run_uid none m = m
with_run_uid (some uid) m =
    if is_uuid uid then put m "regression.magicstick.dev/kubernetes-run-uid" uid else m

-- The annotations of `changed` in acquireInternal.
unfoldable pub acquired_annotations : Option String → String → Option Labels → Labels
acquired_annotations run_uid run_id old = with_run_uid run_uid (
    put (put (put (or_else old []) recovering_key "false") original_owner_key "") run_id_key run_id)

-- The owner whose run a recovery takes over: through a recovery that itself expired.
abbrev original_owner : Lease → Option String
original_owner lease =
    if same_text (lookup (or_else lease.metadata.annotations []) recovering_key) (some "true")
    then lookup (or_else lease.metadata.annotations []) original_owner_key
    else lease.spec.holder_identity

-- A key set to `undefined` is not in the JSON that is sent.
abbrev put_defined : Labels → String → Option String → Labels
put_defined m k none = m
put_defined m k (some v) = put m k v

-- The annotations that acquireRecoveryInternal writes.
unfoldable pub recovery_annotations : String → Lease → Labels
recovery_annotations run_id lease =
    put_defined
      (put (put (or_else lease.metadata.annotations []) run_id_key run_id) recovering_key "true")
      original_owner_key (original_owner lease)

abbrev pub owned_lease : Lease → Labels → LabLease → String → Lease
owned_lease lease annotations lab renewed = record lease {
  metadata = record (lease.metadata) { annotations = some annotations };
  spec = record (lease.spec) {
    holder_identity = some lab.owner;
    renew_time = some renewed;
    lease_duration_seconds = some lab.duration_seconds;
  };
}

abbrev same_number : Option ℕ → Option ℕ → Bool
same_number none none = true
same_number (some a) (some b) = a == b
same_number none (some b) = false
same_number (some a) none = false

abbrev has_uid : Option String → Bool
has_uid uid = truthy (or_else uid "")

-- The lease is exactly the one that the caller reviewed.
unfoldable pub is_same_snapshot : Lease → Lease → Bool
is_same_snapshot expected lease =
    has_uid expected.metadata.uid
    && same_text lease.metadata.uid expected.metadata.uid
    && str_eq lease.metadata.resource_version expected.metadata.resource_version
    && same_text lease.spec.holder_identity expected.spec.holder_identity
    && same_text lease.spec.renew_time expected.spec.renew_time
    && same_number lease.spec.lease_duration_seconds expected.spec.lease_duration_seconds

module _ {W : Type 0} (ports : Ports W) where
  open ports use {read, replace, now, run_uid, date_parse, to_iso_string}

  -- `throw new HarnessError(holderReason)` if there is one.
  abbrev refuse : Option ReasonCode → Action Thrown (Cell W) (Unit {0})
  refuse none = pure tt
  refuse (some code) = throw (of_code code)

  -- The independent read after a failed CAS.
  unfoldable pub confirm_rejected : Lease → Action Thrown (Cell W) (Unit {0})
  confirm_rejected lease = attempt do
    current ← read_valid ports
    λ c.
        if same_text current.metadata.uid lease.metadata.uid && not (held_by current c.lab.owner)
        then record_state ports ReceiptState.released current c
        else (ok tt, c)

  -- The CAS that takes a free lease.
  unfoldable pub claim : Option String → Lease → Action Thrown (Cell W) (Unit {0})
  claim recovery_run_id lease = do
    t ← clock ports
    record_state ports ReceiptState.requested lease
    try_catch
        (λ c.
          (do
            on_world ports (
                replace (
                  owned_lease lease
                    (acquired_annotations run_uid (or_else recovery_run_id c.lab.owner)
                      lease.metadata.annotations)
                    c.lab (lease_time ports t)))
            pure tt)
            c)
        (λ _. do confirm_rejected lease; throw (of_code ReasonCode.lock_busy))

  -- `this.held = true; this.lastHeartbeat = this.now();`
  abbrev take : Action Thrown (Cell W) (Unit {0})
  take = do
    set_lab ports (λ lab. record lab { held = true })
    t ← clock ports
    set_lab ports (λ lab. record lab { last_heartbeat = t })

  unfoldable pub acquire_internal : Option String → Action Thrown (Cell W) (Unit {0})
  acquire_internal recovery_run_id c =
      (do
        require_safe (not c.lab.held && not c.lab.fenced) ReasonCode.lock_lost
        lease ← read_valid ports
        t ← clock ports
        refuse (lease_holder_reason date_parse lease.spec t)
        require_safe
            (not (truthy (or_else recovery_run_id "")) || is_run_id (or_else recovery_run_id ""))
            ReasonCode.config
        claim recovery_run_id lease
        take
        assert_held_internal ports)
        c

  abbrev is_stale : Option ReasonCode → Bool
  is_stale (some ReasonCode.lock_stale) = true
  is_stale _ = false

  -- The last two conditions of acquireRecoveryInternal read the clock one after the other.
  abbrev past_drain : Lease → Bool → Action Thrown (Cell W) Bool
  past_drain lease false c = (ok false, c)
  past_drain lease true c =
      (do
        t ← clock ports
        pure (
            is_expired date_parse lease.spec.lease_duration_seconds
              (renewed_at date_parse lease.spec.renew_time) 60000 t))
        c

  abbrev is_drained : Lease → Action Thrown (Cell W) Bool
  is_drained lease = do
    t ← clock ports
    past_drain lease (is_stale (lease_holder_reason date_parse lease.spec t))

  unfoldable pub acquire_recovery_internal : Lease → String → Action Thrown (Cell W) (Unit {0})
  acquire_recovery_internal expected run_id c =
      (do
        require_safe (not c.lab.held && not c.lab.fenced && is_run_id run_id) ReasonCode.recovery
        validate ports expected
        lease ← read_valid ports
        drained ← if is_same_snapshot expected lease then is_drained lease else pure false
        require_safe drained ReasonCode.lock_stale
        t ← clock ports
        try_catch
            (do
              on_world ports (
                  replace (
                    owned_lease lease (recovery_annotations run_id lease) c.lab
                      (lease_time ports t)))
              pure tt)
            (λ _. throw (of_code ReasonCode.lock_busy))
        take
        assert_held_internal ports)
        c

  -- The body of the `try` in heartbeatInternal.
  abbrev pub renew : Action Thrown (Cell W) (Unit {0})
  renew c =
      (do
        lease ← read_valid ports
        require_safe (held_by lease c.lab.owner) ReasonCode.lock_lost
        t ← clock ports
        on_world ports (
            replace (record lease {
              spec = record (lease.spec) { renew_time = some (lease_time ports t) };
            }))
        pure tt)
        c

  unfoldable pub heartbeat_internal : Action Thrown (Cell W) (Unit {0})
  heartbeat_internal = do
    assert_held_internal ports
    fencing ports renew
    t ← clock ports
    set_lab ports (λ lab. record lab { last_heartbeat = t })

  -- While an outage is reserved the background loop only checks the local expiry.
  unfoldable pub background_heartbeat : Action Thrown (Cell W) (Unit {0})
  background_heartbeat c =
      if c.lab.offline_reserved
      then (do live ← is_live ports; if live then pure tt else fence ports) c
      else heartbeat_internal c

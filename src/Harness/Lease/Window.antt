-- ===== src/Harness/Lease/Window.antt =====
-- The offline window and the release of LabLease (lease.ts), and all its methods as one function.
use aippliance_magic_stick.Prelude.{
  ℕ, Bool, true, false, Option, some, String, not, ◌&&◌, leb, List, [], ◌∷◌,
}
use aippliance_magic_stick.Prelude.Result.{Action, ◌>>=◌, ◌>>◌}
use aippliance_magic_stick.Prelude.Text.{same_text}
use aippliance_magic_stick.Harness.Errors.{ReasonCode, Thrown, require_safe}
use aippliance_magic_stick.Harness.Lease.Data.{Lease, LabLease}
use aippliance_magic_stick.Harness.Lease.Holder.{has_holder}
use aippliance_magic_stick.Harness.Lease.Ports.{Ports, Cell, ReceiptState}
use aippliance_magic_stick.Harness.Lease.Checks.{
  held_by, on_world, clock, set_lab, read_valid, lease_time, fencing, is_ours, assert_held_internal,
  record_state,
}
use aippliance_magic_stick.Harness.Lease.Methods.{
  acquire_internal, acquire_recovery_internal, heartbeat_internal, background_heartbeat,
}

-- The public methods, with their arguments. `seconds` is a safe integer.
pub data Method : Type 0 where
  acquire : Option String → Method
  acquire_recovery : Lease → String → Method
  assert_held heartbeat background : Method
  reserve : ℕ → Method
  finish release : Method

-- The condition of `reserveOfflineWindow`.
abbrev pub can_reserve : LabLease → ℕ → Bool
can_reserve lab seconds =
    not lab.offline_reserved && leb lab.ordinary_duration_seconds seconds && leb seconds 2100

module _ {W : Type 0} (ports : Ports W) where
  open ports use {replace, date_parse}

  -- `resizeInternal` reads the expiry of `Date.parse(renewTime!)` without a test for NaN, which
  -- compares as false.
  abbrev pub resize : ℕ → Action Thrown (Cell W) (Unit {0})
  resize seconds = do
    lease ← read_valid ports
    ours ← is_ours ports lease
    require_safe ours ReasonCode.lock_lost
    t ← clock ports
    on_world ports (
        replace (record lease {
          spec = record (lease.spec) {
            renew_time = some (lease_time ports t);
            lease_duration_seconds = some seconds;
          };
        }))
    set_lab ports (λ lab. record lab { duration_seconds = seconds })
    t' ← clock ports
    set_lab ports (λ lab. record lab { last_heartbeat = t' })

  unfoldable pub resize_internal : ℕ → Action Thrown (Cell W) (Unit {0})
  resize_internal seconds = do assert_held_internal ports; fencing ports (resize seconds)

  unfoldable pub reserve_offline_window : ℕ → Action Thrown (Cell W) (Unit {0})
  reserve_offline_window seconds c =
      (do
        require_safe (can_reserve c.lab seconds) ReasonCode.config
        resize_internal seconds
        set_lab ports (λ lab. record lab { offline_reserved = true }))
        c

  unfoldable pub finish_offline_window : Action Thrown (Cell W) (Unit {0})
  finish_offline_window c =
      (do
        require_safe c.lab.offline_reserved ReasonCode.config
        resize_internal c.lab.ordinary_duration_seconds
        set_lab ports (λ lab. record lab { offline_reserved = false }))
        c

  -- The body of the `try` in releaseInternal.
  abbrev pub hand_back : Action Thrown (Cell W) (Unit {0})
  hand_back c =
      (do
        lease ← read_valid ports
        require_safe (held_by lease c.lab.owner) ReasonCode.lock_lost
        t ← clock ports
        on_world ports (
            replace (record lease {
              spec = record (lease.spec) {
                holder_identity = some "";
                renew_time = some (lease_time ports t);
              };
            }))
        released ← read_valid ports
        require_safe
            (same_text released.metadata.uid lease.metadata.uid && not (has_holder released.spec))
            ReasonCode.lock_lost
        record_state ports ReceiptState.released released)
        c

  unfoldable pub release_internal : Action Thrown (Cell W) (Unit {0})
  release_internal = do
    assert_held_internal ports
    fencing ports hand_back
    set_lab ports (λ lab. record lab { held = false })

  -- A call of a method.
  unfoldable pub perform : Method → Action Thrown (Cell W) (Unit {0})
  perform (Method.acquire recovery_run_id) = acquire_internal ports recovery_run_id
  perform (Method.acquire_recovery expected run_id) =
      acquire_recovery_internal ports expected run_id
  perform Method.assert_held = assert_held_internal ports
  perform Method.heartbeat = heartbeat_internal ports
  perform Method.background = background_heartbeat ports
  perform (Method.reserve seconds) = reserve_offline_window seconds
  perform Method.finish = finish_offline_window
  perform Method.release = release_internal

  -- The queue of `exclusive`: each call starts where the one before ended, whatever it threw.
  unfoldable pub run : List Method → Cell W → Cell W
  run [] c = c
  run (m ∷ ms) c = run ms (perform m c).1

-- ===== src/Harness/Sharing/Restore.antt =====
-- `restore` of BorrowedSharing (borrowed-sharing.ts): every borrowed setting is given back, the
-- last one first.
use aippliance_magic_stick.Prelude.{
  ℕ, zero, suc, Bool, true, false, Option, none, some, List, [], ◌∷◌, ◌&&◌, ◌||◌, not,
  if◌then◌else◌, ◌==◌, reverse, map,
}
use aippliance_magic_stick.Prelude.Result.{Action, pure, throw, gets, ◌>>=◌, ◌>>◌}
use aippliance_magic_stick.Harness.Errors.{ReasonCode, Stage, Thrown, of_code, require_safe}
use aippliance_magic_stick.Harness.Sharing.Spec.{
  Provider, Mode, AllocationBackend, Json, GpuSharingDefaults, GpuSharingRequest, same_spec,
}
use aippliance_magic_stick.Harness.Sharing.Entry.{EntryState, BorrowedEntry, same_mode, is_state}
use aippliance_magic_stick.Harness.Sharing.Methods.{
  SharingSnapshot, Written, accepted, rejected, to_state, Ports, Cell, persist, current, request,
  write, entry_of, store, stage_is, is_ready, is_nvidia, is_time_slicing, spec_is,
}
use aippliance_magic_stick.Harness.Sharing.Borrow.{change}
use aippliance_magic_stick.Harness.Sharing.Wait.{Timing, poll_current}

-- `new SharingWriteRejected(status)`
abbrev pub rejection : ℕ → Thrown
rejection status = of_code (if status == 409 then ReasonCode.conflict else ReasonCode.api)

abbrev pub or_device_plugin : Option AllocationBackend → AllocationBackend
or_device_plugin none = AllocationBackend.device_plugin
or_device_plugin (some b) = b

module _ {W : Type 0} (js : Json) (ports : Ports W) (timing : Timing W) where
  -- What a rejected attempt does: a 409 is tried again while `again` attempts are left.
  abbrev pub retry :
      Bool → Action Thrown (Cell W) (Unit {0}) → Written → Action Thrown (Cell W) (Unit {0})
  retry left again accepted = pure tt
  retry left again (rejected status) =
      if left && status == 409 then again else throw (rejection status)

  -- The loop over `change`; the number is that of the attempts left after this one.
  unfoldable pub change_back : ℕ → BorrowedEntry → Action Thrown (Cell W) (Unit {0})
  change_back zero e =
      change js ports e.provider e.original_mode e.original_count
        (some (or_device_plugin e.original_backend))
      >>= retry false (pure tt)
  change_back (suc n) e =
      change js ports e.provider e.original_mode e.original_count
        (some (or_device_plugin e.original_backend))
      >>= retry true (change_back n e)

  abbrev pub is_exclusive : Provider → SharingSnapshot → Bool
  is_exclusive p value =
      is_ready value.state
      && same_mode value.state.mode Mode.exclusive
      && (not (is_nvidia p) || is_time_slicing value.state.backend)

  abbrev pub default_request : GpuSharingDefaults → Provider → GpuSharingRequest → GpuSharingRequest
  default_request defaults p r = record r {
    allocation_backend =
        if is_nvidia p then some AllocationBackend.device_plugin else r.allocation_backend;
    restore_defaults = some defaults;
  }

  -- One attempt of the loop over `restoreDefaults`.
  unfoldable pub write_defaults :
      GpuSharingDefaults → BorrowedEntry → Action Thrown (Cell W) Written
  write_defaults defaults e = do
    stage_is js ports Stage.gpu_backend
    ready ← poll_current timing (current js ports e.provider) (is_exclusive e.provider)
    identity ← gets (λ (c : Cell W). c.sharing.identity)
    stage_is js ports Stage.recovery_sharing
    write js ports e.provider (
        default_request defaults e.provider
          (request js ports identity ready.state Mode.exclusive e.original_count))

  unfoldable pub defaults_back :
      ℕ → GpuSharingDefaults → BorrowedEntry → Action Thrown (Cell W) (Unit {0})
  defaults_back zero defaults e = write_defaults defaults e >>= retry false (pure tt)
  defaults_back (suc n) defaults e =
      write_defaults defaults e >>= retry true (defaults_back n defaults e)

  abbrev pub defaults_if :
      Option GpuSharingDefaults → BorrowedEntry → Action Thrown (Cell W) (Unit {0})
  defaults_if none e = pure tt
  defaults_if (some defaults) e = defaults_back 2 defaults e

  abbrev pub set_restored : Provider → Action Thrown (Cell W) (Unit {0})
  set_restored p = store js ports p (to_state EntryState.restored) >> persist js ports

  -- The last steps: `requireSafe(canonical(current.object.spec) === canonical(entry.originalSpec))`.
  unfoldable pub prove_original : BorrowedEntry → Action Thrown (Cell W) (Unit {0})
  prove_original e = do
    value ← current js ports e.provider
    require_safe (spec_is value.spec e.original_spec) ReasonCode.cleanup
    set_restored e.provider

  abbrev pub undo : BorrowedEntry → Bool → Action Thrown (Cell W) (Unit {0})
  undo e true = current js ports e.provider >> set_restored e.provider
  undo e false = change_back 2 e >> (defaults_if e.original_defaults e >> prove_original e)

  -- The body of the loop in `restore`, for an entry that is not restored. The fields of `e` that
  -- are read after a change are those that no method assigns.
  unfoldable pub give_back : BorrowedEntry → Action Thrown (Cell W) (Unit {0})
  give_back e = do
    require_safe (is_state e.state EntryState.borrowed) ReasonCode.conflict
    stage_is js ports Stage.recovery_sharing
    undo e (same_spec e.last_spec e.original_spec)

  abbrev pub give_back_unless : BorrowedEntry → Action Thrown (Cell W) (Unit {0})
  give_back_unless e = if is_state e.state EntryState.restored then pure tt else give_back e

  -- The loop, over the providers of the entries: each entry is read when its turn comes.
  unfoldable pub give_back_all : List Provider → Action Thrown (Cell W) (Unit {0})
  give_back_all [] = pure tt
  give_back_all (p ∷ ps) = entry_of js ports p >>= give_back_unless >> give_back_all ps

  -- `restore(onStage)`
  unfoldable pub restore : Action Thrown (Cell W) (Unit {0})
  restore =
      gets (λ (c : Cell W). reverse (map (λ (e : BorrowedEntry). e.provider) c.sharing.entries))
      >>= give_back_all

-- ===== src/Harness/Sharing/Keeps.antt =====
-- What the methods of BorrowedSharing (borrowed-sharing.ts) leave alone in the record: a property of
-- the record that every assignment to one provider's entry keeps, short of marking it restored, is
-- kept by changing and by writing back that entry, whether the method returns or throws.
use aippliance_magic_stick.Prelude.{
  if_holds, or_else, find, ℕ, zero, suc, Bool, true, false, Option, none, some, ◌&&◌, ◌==◌,
}
use aippliance_magic_stick.Prelude.Result.{Result, Action, pure, throw, gets, lift}
use aippliance_magic_stick.Prelude.Keeps.{Keeps, Keeps-pure, Keeps-throw, Keeps-bind, Keeps-then}
use aippliance_magic_stick.Harness.Errors.{ReasonCode, Stage, Thrown, require_safe}
use aippliance_magic_stick.Harness.Sharing.Spec.{
  Provider, Mode, AllocationBackend, Spec, Json, GpuSharingDefaults, GpuSharingRequest,
  sharing_spec, same_spec,
}
use aippliance_magic_stick.Harness.Sharing.Entry.{
  EntryState, BorrowedEntry, SharingData, is_count, is_state, same_provider,
}
use aippliance_magic_stick.Harness.Sharing.Methods.{
  Written, accepted, rejected, Change, to_state, advance, update, Ports, Cell, persist, world,
  current, write, write_unless, after_apply, entry_of, store, stage_is, same_object, same_state,
  is_after, request, spec_is,
}
use aippliance_magic_stick.Harness.Sharing.Borrow.{change, is_borrowed, with_backend}
use aippliance_magic_stick.Harness.Sharing.Wait.{Timing, Keeps-poll_current}
use aippliance_magic_stick.Harness.Sharing.Restore.{
  set_restored, prove_original, undo, give_back, retry, rejection, change_back, is_exclusive,
  default_request, or_device_plugin, write_defaults, defaults_back, defaults_if,
}

-- Every assignment but that of the state 'restored'.
abbrev pub IsActive : Change → Type 0
IsActive (to_state EntryState.restored) = ⊥
IsActive (to_state EntryState.borrowed) = Unit
IsActive (to_state EntryState.pending) = Unit
IsActive (advance n spec) = Unit

pub record IsStable (p : Provider) (P : SharingData → Type 0) : Type 0 where
  pub kept :
      (f : Change)
      → IsActive f
      → (d : SharingData) → P d
      → P (record d { entries = update p f d.entries })

module _ {W : Type 0} (js : Json) (ports : Ports W) (P : SharingData → Type 0) where
  abbrev pub On : Cell W → Type 0
  On c = P c.sharing

  pub Keeps-world : {A : Type 0} (m : Action Thrown W A) → Keeps On (world js ports m)
  Keeps-world m = record { at = λ c h. h }

  pub Keeps-persist : Keeps On (persist js ports)
  unfolding persist
  Keeps-persist = record { at = λ c h. h }

  pub Keeps-stage_is : (s : Stage) → Keeps On (stage_is js ports s)
  Keeps-stage_is s = record { at = λ c h. h }

  pub Keeps-require_safe :
      (b : Bool) (code : ReasonCode) → Keeps On (require_safe {S = Cell W} b code)
  Keeps-require_safe b code = record { at = λ c h. h }

  pub Keeps-entry_of : (p : Provider) → Keeps On (entry_of js ports p)
  Keeps-entry_of p = record { at = λ c h. h }

  pub Keeps-gets : {A : Type 0} (f : Cell W → A) → Keeps On (gets {E = Thrown} f)
  Keeps-gets f = record { at = λ c h. h }

  pub Keeps-lift : {A : Type 0} (r : Result Thrown A) → Keeps On (lift {S = Cell W} r)
  Keeps-lift r = record { at = λ c h. h }

  pub Keeps-current : (p : Provider) → Keeps On (current js ports p)
  unfolding current
  Keeps-current p = Keeps-bind On _ _ (Keeps-entry_of p) (λ e.
      Keeps-then On _ _ (Keeps-world ports.assert_held) (
        Keeps-bind On _ _ (Keeps-world (ports.read p)) (λ value.
          Keeps-then On _ _ (Keeps-require_safe (same_object js ports e value) ReasonCode.conflict)
            (Keeps-bind On _ _ (Keeps-gets (λ c. c.sharing.identity)) (λ identity.
              Keeps-then On _ _
                (Keeps-require_safe (same_state js ports identity e value) ReasonCode.identity)
                (Keeps-pure On value))))))

  module _ (p : Provider) (stable : IsStable p P) where
    Keeps-store : (f : Change) → IsActive f → Keeps On (store js ports p f)
    Keeps-store f a = record { at = λ c h. stable.kept f a c.sharing h }

    Keeps-after_apply :
        (e : BorrowedEntry) (expected : Spec) (w : Written)
        → Keeps On (after_apply js ports p e expected w)
    Keeps-after_apply e expected (rejected status) = Keeps-bind On _ _ (Keeps-current p) (λ _.
        Keeps-then On _ _ (Keeps-store (to_state EntryState.borrowed) tt)
          (Keeps-then On _ _ Keeps-persist (Keeps-pure On (rejected status))))
    Keeps-after_apply e expected accepted = Keeps-bind On _ _ (Keeps-world (ports.read p)) (λ after.
        Keeps-then On _ _
          (Keeps-require_safe (is_after js ports e expected after) ReasonCode.conflict)
          (Keeps-then On _ _ (Keeps-store (advance (or_else after.generation 0) expected) tt)
            (Keeps-then On _ _ Keeps-persist (Keeps-pure On accepted))))

    Keeps-write_unless :
        (r : GpuSharingRequest) (e : BorrowedEntry) (expected : Spec) (same : Bool)
        → Keeps On (write_unless js ports p r e expected same)
    Keeps-write_unless r e expected true = Keeps-pure On accepted
    Keeps-write_unless r e expected false =
        Keeps-then On _ _ (Keeps-store (to_state EntryState.pending) tt) (
          Keeps-then On _ _ Keeps-persist (
            Keeps-then On _ _ (Keeps-world ports.assert_held)
              (Keeps-bind On _ _ (Keeps-world (ports.apply r)) (Keeps-after_apply e expected))))

    pub Keeps-write : (r : GpuSharingRequest) → Keeps On (write js ports p r)
    unfolding write
    Keeps-write r = Keeps-bind On _ _ (Keeps-entry_of p) (λ e.
        Keeps-bind On _ _ (Keeps-lift (sharing_spec js e.last_spec r))
          (λ expected. Keeps-write_unless r e expected (same_spec expected e.last_spec)))

    pub Keeps-change :
        (mode : Mode) (n : ℕ) (backend : Option AllocationBackend)
        → Keeps On (change js ports p mode n backend)
    unfolding change
    Keeps-change mode n backend =
        Keeps-then On _ _ (Keeps-require_safe (is_count n) ReasonCode.config) (
          Keeps-bind On _ _ (Keeps-gets (λ c. c.sharing)) (λ d.
            Keeps-then On _ _
              (Keeps-require_safe (is_borrowed (find (λ e. same_provider e.provider p) d.entries))
                ReasonCode.ownership)
              (Keeps-bind On _ _ (Keeps-current p) (λ value. Keeps-write (
                with_backend js ports p backend
                  (request js ports d.identity value.state mode n))))))

module _ {W : Type 0} (js : Json) (ports : Ports W) (timing : Timing W) (P : SharingData → Type 0)
    (e : BorrowedEntry) (stable : IsStable e.provider P) where
  abbrev Here : Cell W → Type 0
  Here = On js ports P

  Keeps-retry :
      (left : Bool) (again : Action Thrown (Cell W) (Unit {0})) (w : Written)
      → Keeps Here again
      → Keeps Here (retry js ports timing left again w)
  Keeps-retry left again accepted k = Keeps-pure Here tt
  Keeps-retry left again (rejected status) k =
      if_holds (λ (m : Action Thrown (Cell W) (Unit {0})). Keeps Here m) (left && status == 409)
        again (throw (rejection status)) (λ _. k) (Keeps-throw Here (rejection status))

  abbrev change_once : Action Thrown (Cell W) Written
  change_once =
      change js ports e.provider e.original_mode e.original_count
        (some (or_device_plugin e.original_backend))

  Keeps-change_once : Keeps Here change_once
  Keeps-change_once =
      Keeps-change js ports P e.provider stable e.original_mode e.original_count
        (some (or_device_plugin e.original_backend))

  pub Keeps-change_back : (n : ℕ) → Keeps Here (change_back js ports timing n e)
  unfolding change_back
  Keeps-change_back zero =
      Keeps-bind Here change_once (retry js ports timing false (pure tt)) Keeps-change_once
        (λ w. Keeps-retry false (pure tt) w (Keeps-pure Here tt))
  Keeps-change_back (suc n) =
      Keeps-bind Here change_once (retry js ports timing true (change_back js ports timing n e))
        Keeps-change_once
        (λ w. Keeps-retry true (change_back js ports timing n e) w (Keeps-change_back n))

  Keeps-write_defaults :
      (defaults : GpuSharingDefaults) → Keeps Here (write_defaults js ports timing defaults e)
  unfolding write_defaults
  Keeps-write_defaults defaults =
      Keeps-then Here _ _ (Keeps-stage_is js ports P Stage.gpu_backend) (
        Keeps-bind Here _ _
          (Keeps-poll_current timing P (current js ports e.provider)
            (is_exclusive js ports timing e.provider) (Keeps-current js ports P e.provider))
          (λ ready.
            Keeps-bind Here _ _ (Keeps-gets js ports P (λ c. c.sharing.identity)) (λ identity.
              Keeps-then Here _ _ (Keeps-stage_is js ports P Stage.recovery_sharing) (
                Keeps-write js ports P e.provider stable (
                  default_request js ports timing defaults e.provider
                    (request js ports identity ready.state Mode.exclusive e.original_count))))))

  Keeps-defaults_back :
      (n : ℕ) (defaults : GpuSharingDefaults)
      → Keeps Here (defaults_back js ports timing n defaults e)
  unfolding defaults_back
  Keeps-defaults_back zero defaults =
      Keeps-bind Here (write_defaults js ports timing defaults e)
        (retry js ports timing false (pure tt)) (Keeps-write_defaults defaults)
        (λ w. Keeps-retry false (pure tt) w (Keeps-pure Here tt))
  Keeps-defaults_back (suc n) defaults =
      Keeps-bind Here (write_defaults js ports timing defaults e)
        (retry js ports timing true (defaults_back js ports timing n defaults e))
        (Keeps-write_defaults defaults)
        (λ w.
          Keeps-retry true (defaults_back js ports timing n defaults e) w
            (Keeps-defaults_back n defaults))

  pub Keeps-defaults_if :
      (o : Option GpuSharingDefaults) → Keeps Here (defaults_if js ports timing o e)
  Keeps-defaults_if none = Keeps-pure Here tt
  Keeps-defaults_if (some defaults) = Keeps-defaults_back 2 defaults

  -- Where also the state 'restored' is a harmless assignment, so is giving the entry back.
  module _
      (marked : (d : SharingData)
        → P d
        → P (record d {
          entries = update e.provider (to_state EntryState.restored) d.entries;
        })) where
    Keeps-set_restored : Keeps Here (set_restored js ports timing e.provider)
    unfolding persist
    Keeps-set_restored = record { at = λ c h. marked c.sharing h }

    Keeps-prove_original : Keeps Here (prove_original js ports timing e)
    unfolding prove_original
    Keeps-prove_original = Keeps-bind Here _ _ (Keeps-current js ports P e.provider) (λ value.
        Keeps-then Here _ (set_restored js ports timing e.provider)
          (Keeps-require_safe js ports P (spec_is value.spec e.original_spec) ReasonCode.cleanup)
          Keeps-set_restored)

    Keeps-undo : (same : Bool) → Keeps Here (undo js ports timing e same)
    Keeps-undo true =
        Keeps-then Here (current js ports e.provider) (set_restored js ports timing e.provider)
          (Keeps-current js ports P e.provider) Keeps-set_restored
    Keeps-undo false = Keeps-then Here (change_back js ports timing 2 e) _ (Keeps-change_back 2) (
        Keeps-then Here (defaults_if js ports timing e.original_defaults e)
          (prove_original js ports timing e) (Keeps-defaults_if e.original_defaults)
          Keeps-prove_original)

    pub Keeps-give_back : Keeps Here (give_back js ports timing e)
    unfolding give_back
    Keeps-give_back =
        Keeps-then Here _ _
          (Keeps-require_safe js ports P (is_state e.state EntryState.borrowed) ReasonCode.conflict)
          (Keeps-then Here _ _ (Keeps-stage_is js ports P Stage.recovery_sharing)
            (Keeps-undo (same_spec e.last_spec e.original_spec)))

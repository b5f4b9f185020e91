-- ===== src/Harness/Sharing/Borrow.antt =====
-- The methods of BorrowedSharing (borrowed-sharing.ts) that open a record, borrow a setting,
-- change it, and verify it after an interruption.
use aippliance_magic_stick.Prelude.{
  ℕ, Bool, true, false, Option, none, some, List, [], ◌∷◌, ◌++◌, String, ◌&&◌, ◌||◌, not,
  if◌then◌else◌, or_else, is_some, any, find, ◌==◌, ltb,
}
use aippliance_magic_stick.Prelude.Result.{Result, ok, err, Action, pure, gets, lift, ◌>>=◌, ◌>>◌}
use aippliance_magic_stick.Prelude.Text.{str_eq, truthy, same_text, is_run_id}
use aippliance_magic_stick.Harness.Errors.{ReasonCode, Thrown, other, require_safe}
use aippliance_magic_stick.Harness.Sharing.Spec.{
  Provider, Mode, AllocationBackend, Spec, Json, GpuSharingRequest, ParametersField, absent, object,
  malformed, same_spec, default_fields, is_truthy, sharing_spec,
}
use aippliance_magic_stick.Harness.Sharing.Entry.{
  EntryState, BorrowedEntry, Identity, SharingData, same_provider, same_mode, is_state, is_count,
  has_provider, resumes,
}
use aippliance_magic_stick.Harness.Sharing.Methods.{
  SharingSnapshot, Written, to_state, Ports, Cell, persist, world, current, request, write, store,
  is_ready, is_nvidia, is_time_slicing, is_dra, is_dra_option,
}

-- `!parameters?.validationRequest || parameters.validationRequest === ''`
abbrev validation_unset : ParametersField → Bool
validation_unset absent = true
validation_unset (object p) = not (is_truthy p.validation_request)
validation_unset (malformed j) = true

abbrev validation_of : Option Spec → Bool
validation_of none = true
validation_of (some s) = validation_unset s.parameters

abbrev nonzero : Option ℕ → Bool
nonzero none = false
nonzero (some n) = ltb 0 n

abbrev present : Option String → Bool
present none = false
present (some s) = truthy s

abbrev pub is_borrowed : Option BorrowedEntry → Bool
is_borrowed none = false
is_borrowed (some e) = is_state e.state EntryState.borrowed

module _ {W : Type 0} (js : Json) (ports : Ports W) where
  abbrev pub is_capable : Identity → Provider → SharingSnapshot → Bool
  is_capable identity p value =
      same_provider value.state.provider p
      && value.state.available
      && is_ready value.state
      && str_eq value.state.node_name identity.node_name
      && str_eq value.state.node_uid identity.node_uid
      && present value.uid
      && nonzero value.generation
      && same_text value.state.expected_revision value.resource_version
      && is_count value.state.max_models
      && validation_of value.spec

  abbrev spec_eq : Result Thrown Spec → Spec → Bool
  spec_eq (ok a) b = same_spec a b
  spec_eq (err e) b = false

  -- A managed setting is in the product's own form; an unmanaged one is the installation default.
  abbrev pub is_borrowable : Provider → SharingSnapshot → Spec → GpuSharingRequest → Bool
  is_borrowable p value spec r =
      if value.state.managed
      then spec_eq (sharing_spec js spec r) spec
      else is_some (default_fields spec p)
        && same_mode value.state.mode Mode.exclusive
        && (not (is_nvidia p) || is_time_slicing value.state.backend)

  -- Reading the parameters of a spec that is not there is a TypeError.
  abbrev pub spec_or : Option Spec → Result Thrown Spec
  spec_or none = err other
  spec_or (some s) = ok s

  abbrev pub borrowed_entry : Provider → SharingSnapshot → Spec → BorrowedEntry
  borrowed_entry p value spec = record {
    provider = p;
    uid = or_else value.uid "";
    original_spec = spec;
    original_mode = value.state.mode;
    original_count = value.state.max_models;
    original_backend = some (
        if is_nvidia p && is_dra value.state.backend
        then AllocationBackend.dra
        else AllocationBackend.device_plugin);
    original_defaults = if value.state.managed then none else default_fields spec p;
    generation = or_else value.generation 0;
    last_spec = spec;
    state = EntryState.borrowed;
  }

  abbrev pub push : BorrowedEntry → Action Thrown (Cell W) (Unit {0})
  push e c =
      (ok tt, record c { sharing = record c.sharing { entries = c.sharing.entries ++ (e ∷ []) } })

  -- `borrow(provider)`
  unfoldable pub borrow : Provider → Action Thrown (Cell W) (Unit {0})
  borrow p = do
    d ← gets (λ (c : Cell W). c.sharing)
    require_safe (not (has_provider p d.entries)) ReasonCode.ownership
    world js ports ports.assert_held
    value ← world js ports (ports.read p)
    require_safe (is_capable d.identity p value) ReasonCode.capability
    spec ← lift (spec_or value.spec)
    require_safe
        (is_borrowable p value spec
          (request js ports d.identity value.state value.state.mode value.state.max_models))
        ReasonCode.capability
    push (borrowed_entry p value spec)
    persist js ports

  abbrev pub with_backend :
      Provider → Option AllocationBackend → GpuSharingRequest → GpuSharingRequest
  with_backend p none r = r
  with_backend p (some b) r = if is_nvidia p then record r { allocation_backend = some b } else r

  -- `change(provider, mode, maxModels, backend)`
  unfoldable pub change :
      Provider → Mode → ℕ → Option AllocationBackend → Action Thrown (Cell W) Written
  change p mode max_models backend = do
    require_safe (is_count max_models) ReasonCode.config
    d ← gets (λ (c : Cell W). c.sharing)
    require_safe (is_borrowed (find (λ (e : BorrowedEntry). same_provider e.provider p) d.entries))
        ReasonCode.ownership
    value ← current js ports p
    write js ports p
        (with_backend p backend (request js ports d.identity value.state mode max_models))

  -- The loops of `reconcileUnchanged`, `verifyRecoverable` and `verifyRestored`.
  abbrev pub reconcile_if : BorrowedEntry → Action Thrown (Cell W) (Unit {0})
  reconcile_if e =
      if is_state e.state EntryState.pending
      then (do
        _ ← current js ports e.provider
        store js ports e.provider (to_state EntryState.borrowed)
        persist js ports)
      else pure tt

  unfoldable pub reconcile_all : List BorrowedEntry → Action Thrown (Cell W) (Unit {0})
  reconcile_all [] = pure tt
  reconcile_all (e ∷ es) = reconcile_if e >> reconcile_all es

  unfoldable pub reconcile_unchanged : Action Thrown (Cell W) (Unit {0})
  reconcile_unchanged = gets (λ (c : Cell W). c.sharing.entries) >>= reconcile_all

  abbrev recover_if : BorrowedEntry → Action Thrown (Cell W) (Unit {0})
  recover_if e =
      if is_state e.state EntryState.restored
      then pure tt
      else (current js ports e.provider >> pure tt)

  unfoldable pub verify_recoverable : List BorrowedEntry → Action Thrown (Cell W) (Unit {0})
  verify_recoverable [] = pure tt
  verify_recoverable (e ∷ es) = recover_if e >> verify_recoverable es

  abbrev pub is_as_before : BorrowedEntry → SharingSnapshot → Bool
  is_as_before e value =
      is_ready value.state
      && same_mode value.state.mode e.original_mode
      && value.state.max_models == e.original_count
      && (not (is_nvidia e.provider)
          || (if is_dra_option e.original_backend
              then is_dra value.state.backend
              else is_time_slicing value.state.backend))

  unfoldable pub verify_restored :
      List Provider → List BorrowedEntry → Action Thrown (Cell W) (Unit {0})
  verify_restored providers [] = pure tt
  verify_restored providers (e ∷ es) =
      (if any (λ p. same_provider e.provider p) providers
        then (do
          require_safe
              (is_state e.state EntryState.restored && same_spec e.last_spec e.original_spec)
              ReasonCode.cleanup
          value ← current js ports e.provider
          require_safe (is_as_before e value) ReasonCode.cleanup)
        else pure tt)
      >> verify_restored providers es

  -- `create` and `resume`: the record that the object starts with.
  unfoldable pub create : Identity → Action Thrown W SharingData
  create identity = do
    require_safe (is_run_id identity.run_id && truthy identity.node_uid) ReasonCode.config
    ports.write_private (record { identity = identity; entries = [] })
    pure (record { identity = identity; entries = [] })

  unfoldable pub resume : Identity → Action Thrown W SharingData
  resume identity = do
    d ← ports.read_private
    require_safe (resumes identity d) ReasonCode.ownership
    pure d

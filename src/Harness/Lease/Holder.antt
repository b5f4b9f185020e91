-- ===== src/Harness/Lease/Holder.antt =====
-- leaseHolderReason (lease.ts): who may take a lease at a given time.
use aippliance_magic_stick.Prelude.{
  ℕ, ◌+◌, ◌*◌, Bool, false, Option, none, some, String, ◌&&◌, ltb, leb, if◌then◌else◌, or_else,
}
use aippliance_magic_stick.Prelude.Text.{truthy}
use aippliance_magic_stick.Harness.Errors.{ReasonCode}
use aippliance_magic_stick.Harness.Lease.Data.{Spec}

-- `Boolean(lease.spec?.holderIdentity)`
abbrev pub has_holder : Spec → Bool
has_holder spec = truthy (or_else spec.holder_identity "")

module _ (date_parse : String → Option ℕ) where
  -- `Date.parse(renewTime ?? '')`, where NaN is `none`.
  abbrev pub renewed_at : Option String → Option ℕ
  renewed_at t = date_parse (or_else t "")

  -- The lease is past its expiry by `grace` milliseconds.
  abbrev pub is_expired : Option ℕ → Option ℕ → ℕ → ℕ → Bool
  is_expired (some duration) (some renewed) grace now =
      ltb 0 duration && leb (renewed + duration * 1000 + grace) now
  is_expired (some duration) none grace now = false
  is_expired none renewed grace now = false

  -- `Date.now()` is `now`.
  unfoldable pub lease_holder_reason : Spec → ℕ → Option ReasonCode
  lease_holder_reason spec now =
      if has_holder spec
      then some (
          if is_expired spec.lease_duration_seconds (renewed_at spec.renew_time) 0 now
          then ReasonCode.lock_stale
          else ReasonCode.lock_busy)
      else none

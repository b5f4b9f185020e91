-- ===== src/Harness/Recovery.antt =====
-- The lock that a recovery may clear, dashboard/apps/web/regression/core/lock-recovery.ts. The value
-- that parseRecoveryLock checks is given with the keys and types of a RecoveryLock.
use aippliance_magic_stick.Prelude.{
  ℕ, Bool, true, false, Option, none, some, List, [], String, not, ◌&&◌, ltb, leb, if◌then◌else◌,
  or_option, or_else, all, length, ◌≡◌, arith,
}
use aippliance_magic_stick.Prelude.Text.{
  str_eq, same_text, lookup, codes, is_digit, is_uuid, is_run_id,
}
use aippliance_magic_stick.Prelude.Result.{Result, ok, err}
use aippliance_magic_stick.Harness.Errors.{ReasonCode}
use aippliance_magic_stick.Harness.Lease.Data.{Lease}
use aippliance_magic_stick.Harness.Lease.Holder.{
  has_holder, renewed_at, is_expired, lease_holder_reason,
}
use aippliance_magic_stick.Harness.Lease.Methods.{run_id_key}

pub record RecoveryLock : Type 0 where
  pub uid : String
  pub resource_version : String
  pub run_id : String
  pub released : Bool

-- `/^\d{1,32}$/`
abbrev is_version : List ℕ → Bool
is_version s = ltb 0 (length s) && leb (length s) 32 && all is_digit s

-- The regular expressions of parseRecoveryLock.
unfoldable pub parse_recovery_lock : RecoveryLock → Bool
parse_recovery_lock expected =
    is_uuid expected.uid
    && is_version (codes expected.resource_version)
    && is_run_id expected.run_id

-- The lease is the snapshot that was confirmed, and is held or released as it was then.
unfoldable pub is_confirmed : Lease → RecoveryLock → Bool
is_confirmed lease expected =
    same_text lease.metadata.uid (some expected.uid)
    && str_eq lease.metadata.resource_version expected.resource_version
    && same_text
        (or_option (lookup (or_else lease.metadata.annotations []) run_id_key)
          lease.spec.holder_identity)
        (some expected.run_id)
    && (if expected.released then not (has_holder lease.spec) else has_holder lease.spec)

abbrev is_stale : Option ReasonCode → Bool
is_stale (some ReasonCode.lock_stale) = true
is_stale _ = false

module _ (date_parse : String → Option ℕ) where
  -- Past the expiry by the drain window.
  unfoldable pub is_drained : Lease → ℕ → Bool
  is_drained lease now =
      is_stale (lease_holder_reason date_parse lease.spec now)
      && is_expired date_parse lease.spec.lease_duration_seconds
          (renewed_at date_parse lease.spec.renew_time) 60000 now

  abbrev check_confirmed : Lease → RecoveryLock → ℕ → Result ReasonCode (Unit {0})
  check_confirmed lease expected now =
      if is_confirmed lease expected
      then (if expected.released
          then ok tt
          else (if is_drained lease now then ok tt else err ReasonCode.lock_stale))
      else err ReasonCode.conflict

  abbrev check_lease : Option Lease → RecoveryLock → ℕ → Result ReasonCode (Unit {0})
  check_lease none expected now = err ReasonCode.conflict
  check_lease (some lease) expected now = check_confirmed lease expected now

  unfoldable pub exact_recovery_lock :
      Option Lease → RecoveryLock → ℕ → Result ReasonCode (Unit {0})
  exact_recovery_lock lease expected now =
      if parse_recovery_lock expected then check_lease lease expected now else err ReasonCode.config

  confirmed_lem :
      (b r d : Bool)
      → (if b
          then (if r then ok tt else (if d then ok tt else err ReasonCode.lock_stale))
          else err ReasonCode.conflict)
        ≡ ok tt
      → (b ≡ true) × (r ≡ false → d ≡ true)
  confirmed_lem b r d h = (ground (arith, h), ground (arith, h))

  -- A recovery lock is accepted only for a lease of the confirmed uid and version, and then the lease
  -- has no holder if it was confirmed as released, and is otherwise held, expired, and past the drain
  -- window of 60 seconds.
  pub exact_recovery_lock-ok :
      (lease : Lease) (expected : RecoveryLock) (now : ℕ)
      → exact_recovery_lock (some lease) expected now ≡ ok tt
      → (same_text lease.metadata.uid (some expected.uid) ≡ true)
        × (str_eq lease.metadata.resource_version expected.resource_version ≡ true)
        × (expected.released ≡ true → has_holder lease.spec ≡ false)
        × (expected.released ≡ false → has_holder lease.spec ≡ true)
        × (expected.released ≡ false
            → is_expired date_parse lease.spec.lease_duration_seconds
                (renewed_at date_parse lease.spec.renew_time)
                60000
                now
              ≡ true)
  unfolding exact_recovery_lock is_confirmed is_drained
  exact_recovery_lock-ok lease expected now h =
      let parsed = if_ok (parse_recovery_lock expected) (check_lease (some lease) expected now) h in
      let steps =
        confirmed_lem (is_confirmed lease expected) expected.released (is_drained lease now)
          parsed in
      let fields = split _ _ _ expected.released (has_holder lease.spec) steps.0 in
      (fields.0, fields.1, fields.2, fields.3, λ r. second _ _ (steps.1 r))
    where
      if_ok :
          (b : Bool) (r : Result ReasonCode (Unit {0}))
          → (if b then r else err ReasonCode.config) ≡ ok tt
          → r ≡ ok tt
      if_ok true r h = h
      if_ok false r h = absurd (ground (arith, h))

      split :
          (u v w r k : Bool)
          → u && v && w && (if r then not k else k) ≡ true
          → (u ≡ true) × (v ≡ true) × (r ≡ true → k ≡ false) × (r ≡ false → k ≡ true)
      split u v w r k h =
          (ground (arith, h), ground (arith, h), ground (arith, h), ground (arith, h))

      second : (a b : Bool) → a && b ≡ true → b ≡ true
      second a b h = ground (arith, h)

-- ===== src/Harness/Lease/Outcome.antt =====
-- How the methods of LabLease (lease.ts) end: an occupied lease is refused with nothing written,
-- a failed check fences the object, and a reserved outage is waited out on the clock alone.
use aippliance_magic_stick.Prelude.{
  ℕ, ◌+◌, ◌*◌, ◌≤◌, ◌<◌, Bool, true, false, Option, some, String, ◌≡◌, refl, if◌then◌else◌, ◌&&◌,
  leb, not, or_else, arith,
}
use aippliance_magic_stick.Prelude.Result.{Result, ok, err, Action, continue, handle, ◌>>=◌, ◌>>◌}
use aippliance_magic_stick.Prelude.Text.{truthy}
use aippliance_magic_stick.Harness.Errors.{Thrown, ReasonCode, of_code}
use aippliance_magic_stick.Harness.Lease.Data.{Lease}
use aippliance_magic_stick.Harness.Lease.Holder.{
  has_holder, renewed_at, is_expired, lease_holder_reason,
}
use aippliance_magic_stick.Harness.Lease.Ports.{Ports, Cell}
use aippliance_magic_stick.Harness.Lease.Checks.{
  is_lab_lease, reading, in_heartbeat, fencing, fence, check_held, assert_held_internal, is_live,
}
use aippliance_magic_stick.Harness.Lease.Methods.{
  acquire_internal, heartbeat_internal, background_heartbeat, renew,
}
use aippliance_magic_stick.Harness.Lease.Window.{
  Method, resize_internal, release_internal, hand_back, resize, perform,
}

-- If the call threw, it threw LOCK_LOST and left the object unheld and fenced.
abbrev pub Fences : {W A : Type 0} → Result Thrown A × Cell W → Type 0
Fences (ok a, c) = Unit
Fences (err e, c) =
    (e ≡ of_code ReasonCode.lock_lost) × (c.lab.held ≡ false) × (c.lab.fenced ≡ true)

-- The methods that use a lease already taken, but for the argument checks of the offline window.
abbrev pub UsesLease : Method → Type 0
UsesLease Method.assert_held = Unit
UsesLease Method.heartbeat = Unit
UsesLease Method.background = Unit
UsesLease Method.release = Unit
UsesLease _ = ⊥

module _ {W : Type 0} (ports : Ports W) where
  handle-Fences : {A : Type 0} (r : Result Thrown A × Cell W) → Fences (handle (λ _. fence ports) r)
  handle-Fences (ok a, c) = tt
  handle-Fences (err e, c) = (refl, refl, refl)

  continue-Fences :
      {A B : Type 0} (f : A → Action Thrown (Cell W) B) (r : Result Thrown A × Cell W)
      → Fences r
      → ((a : A) (c : Cell W) → Fences (f a c))
      → Fences (continue f r)
  continue-Fences f (ok a, c) h k = k a c
  continue-Fences f (err e, c) h k = h

  assert_held_internal-Fences : (c : Cell W) → Fences (assert_held_internal ports c)
  unfolding assert_held_internal
  assert_held_internal-Fences c = handle-Fences (check_held ports c)

  -- A checked method: the lease is held, then a fenced body, then steps that cannot fail.
  checked-Fences :
      (m k : Action Thrown (Cell W) (Unit {0}))
      → ((c : Cell W) → Fences (k c))
      → (c : Cell W) → Fences ((assert_held_internal ports >> (fencing ports m >> k)) c)
  checked-Fences m k h c =
      continue-Fences _ (assert_held_internal ports c) (assert_held_internal-Fences c)
        (λ _ c'. continue-Fences _ (fencing ports m c') (handle-Fences (m c')) (λ _. h))

  heartbeat_internal-Fences : (c : Cell W) → Fences (heartbeat_internal ports c)
  unfolding heartbeat_internal
  heartbeat_internal-Fences = checked-Fences (renew ports) _ (λ _. tt)

  release_internal-Fences : (c : Cell W) → Fences (release_internal ports c)
  unfolding release_internal
  release_internal-Fences = checked-Fences (hand_back ports) _ (λ _. tt)

  resize_internal-Fences : (n : ℕ) (c : Cell W) → Fences (resize_internal ports n c)
  unfolding resize_internal
  resize_internal-Fences n c =
      continue-Fences _ (assert_held_internal ports c) (assert_held_internal-Fences c)
        (λ _ c'. handle-Fences (resize ports n c'))

  -- The second half of `background_heartbeat` in a reserved outage.
  abbrev go_on : Bool → Action Thrown (Cell W) (Unit {0})
  go_on live = if live then (λ s. (ok tt, s)) else fence ports

  go_on-Fences : (b : Bool) (c : Cell W) → Fences (go_on b c)
  go_on-Fences true c = tt
  go_on-Fences false c = (refl, refl, refl)

  reading-Fences : (b : Bool) (c : Cell W) → Fences (reading ports b c)
  reading-Fences true c = tt
  reading-Fences false c = tt

  if_live-Fences :
      (b : Bool) (c : Cell W) → Fences (if b then in_heartbeat ports c else (ok false, c))
  if_live-Fences true c =
      let (t, w) = ports.now c.world in
      reading-Fences (leb c.lab.last_heartbeat t) (record c { world = w })
  if_live-Fences false c = tt

  by_window-Fences :
      (offline : Bool) (c : Cell W)
      → Fences (if offline then (is_live ports >>= go_on) c else heartbeat_internal ports c)
  by_window-Fences true c =
      continue-Fences go_on (is_live ports c) (if_live-Fences (c.lab.held && not c.lab.fenced) c)
        go_on-Fences
  by_window-Fences false c = heartbeat_internal-Fences c

  background_heartbeat-Fences : (c : Cell W) → Fences (background_heartbeat ports c)
  unfolding background_heartbeat
  background_heartbeat-Fences c = by_window-Fences c.lab.offline_reserved c

-- A check, a heartbeat (in the foreground or the background) or a release that throws, whatever
-- the clock shows and however the API or the receipt file fails, throws LOCK_LOST and leaves the
-- object unheld and fenced.
pub perform-Fences :
    {W : Type 0} (ports : Ports W) (m : Method)
    → UsesLease m
    → (c : Cell W) → Fences (perform ports m c)
unfolding perform
perform-Fences ports Method.assert_held u c = assert_held_internal-Fences ports c
perform-Fences ports Method.heartbeat u c = heartbeat_internal-Fences ports c
perform-Fences ports Method.background u c = background_heartbeat-Fences ports c
perform-Fences ports Method.release u c = release_internal-Fences ports c
perform-Fences ports _ u c = absurd u

acquire_internal_lem :
    {W : Type 0} (ports : Ports W) (recovery_run_id : Option String) (c : Cell W) (lease : Lease)
    (w w' : W) (t : ℕ) (stale : Bool)
    → c.lab.held ≡ false
    → c.lab.fenced ≡ false
    → ports.read c.world ≡ (ok lease, w)
    → is_lab_lease c.lab.target_uid lease ≡ true
    → has_holder lease.spec ≡ true
    → ports.now w ≡ (t, w')
    → is_expired ports.date_parse lease.spec.lease_duration_seconds
        (renewed_at ports.date_parse lease.spec.renew_time)
        0
        t
      ≡ stale
    → acquire_internal ports recovery_run_id c ≡ (
      err (of_code (if stale then ReasonCode.lock_stale else ReasonCode.lock_busy)),
      record c { world = w' },
    )
unfolding acquire_internal lease_holder_reason
acquire_internal_lem ports r c lease w w' t stale held fenced e valid holder now s =
    rw (held, fenced) (rw (e, ◌>>=◌) (rw valid (rw (now, ◌>>=◌) (rw (holder, s)))))

-- acquire(), called on an object that neither holds the lease nor is fenced, for a lease of this
-- appliance that has a holder, a duration in seconds and a time of renewal: at least that duration
-- after the renewal it throws LOCK_STALE, and before that LOCK_BUSY. It has read the lease and the
-- clock and done nothing else: no write to the API, no receipt, and the object as it was.
pub acquire_internal-of_holder :
    {W : Type 0} (ports : Ports W) (recovery_run_id : Option String) (c : Cell W) (lease : Lease)
    (holder : String) (duration renewed t : ℕ) (w w' : W)
    → c.lab.held ≡ false
    → c.lab.fenced ≡ false
    → ports.read c.world ≡ (ok lease, w)
    → is_lab_lease c.lab.target_uid lease ≡ true
    → lease.spec.holder_identity ≡ some holder
    → truthy holder ≡ true
    → lease.spec.lease_duration_seconds ≡ some duration
    → 0 < duration
    → ports.date_parse (or_else lease.spec.renew_time "") ≡ some renewed
    → ports.now w ≡ (t, w')
    → (renewed + duration * 1000 ≤ t
        → acquire_internal ports recovery_run_id c
          ≡ (err (of_code ReasonCode.lock_stale), record c { world = w' }))
      × (t < renewed + duration * 1000
          → acquire_internal ports recovery_run_id c
            ≡ (err (of_code ReasonCode.lock_busy), record c { world = w' }))
acquire_internal-of_holder ports r c lease holder duration renewed t w w' held fenced e valid h k d
      positive p now =
    (
      λ late.
          acquire_internal_lem ports r c lease w w' t true held fenced e valid (rw h k) now
            (rw (d, p) (ground arith)),
      λ early.
          acquire_internal_lem ports r c lease w w' t false held fenced e valid (rw h k) now
            (rw (d, p) (ground arith)),
    )

-- ===== src/Harness/Lease/Fence.antt =====
-- The fence of LabLease (lease.ts): a lost lease is never used again.
use aippliance_magic_stick.Prelude.{
  ℕ, Bool, true, false, Option, String, List, [], ◌∷◌, ◌≡◌, refl, sym, ◌∙◌, subst, arith,
  Bool-cases, inl, inr,
}
use aippliance_magic_stick.Prelude.Result.{
  Result, ok, err, Action, continue, ◌>>=◌, ◌>>◌, bind-of_err,
}
use aippliance_magic_stick.Harness.Errors.{Thrown, ReasonCode, of_code, require_safe}
use aippliance_magic_stick.Harness.Lease.Data.{Lease, LabLease}
use aippliance_magic_stick.Harness.Lease.Ports.{Ports, Cell}
use aippliance_magic_stick.Harness.Lease.Checks.{set_lab, check_held, assert_held_internal}
use aippliance_magic_stick.Harness.Lease.Methods.{
  acquire_internal, acquire_recovery_internal, heartbeat_internal, background_heartbeat,
}
use aippliance_magic_stick.Harness.Lease.Window.{
  Method, can_reserve, resize_internal, reserve_offline_window, finish_offline_window,
  release_internal, perform, run,
}

-- The state that a failed check leaves: not held, fenced, all else as it was.
abbrev pub lost : LabLease → LabLease
lost lab = record lab { held = false; fenced = true }

-- The call threw, reached no port, and left the object fenced.
abbrev pub Refuses : {W A : Type 0} → Cell W → Result Thrown A × Cell W → Type 0
Refuses c (r, c') = ((e : Thrown) × (r ≡ err e)) × (c'.world ≡ c.world) × (c'.lab.fenced ≡ true)

module _ {W : Type 0} (c : Cell W) where
  after_refusal :
      {A B : Type 0} (f : A → Action Thrown (Cell W) B) (r : Result Thrown A × Cell W)
      → Refuses c r
      → Refuses c (continue f r)
  after_refusal f (ok a, u) h = absurd (ground (arith, h.0.1))
  after_refusal f (err e, u) h = ((e, refl), h.1, h.2)

  guard_then :
      (b : Bool) (code : ReasonCode) (m : Action Thrown (Cell W) (Unit {0}))
      → c.lab.fenced ≡ true
      → Refuses c (m c)
      → Refuses c ((require_safe b code >> m) c)
  guard_then true code m fenced h = h
  guard_then false code m fenced h = ((_, refl), refl, fenced)

module _ {W : Type 0} (ports : Ports W) (c : Cell W) (fenced : c.lab.fenced ≡ true) where
  pub assert_held_internal-of_fenced :
      assert_held_internal ports c
      ≡ (err (of_code ReasonCode.lock_lost), record c { lab = lost c.lab })
  unfolding assert_held_internal check_held
  assert_held_internal-of_fenced = elim (Bool-cases c.lab.held) [
    | inl h ↦ rw (h, fenced)
    | inr h ↦ rw h
  ]

  -- What every method that begins by `assertHeldInternal` does.
  first_check :
      (f : Unit {0} → Action Thrown (Cell W) (Unit {0}))
      → Refuses c ((assert_held_internal ports >>= f) c)
  first_check f =
      subst (Refuses c)
        (sym (bind-of_err (assert_held_internal ports) f assert_held_internal-of_fenced))
        ((_, refl), refl, refl)

  heartbeat_internal-of_fenced : Refuses c (heartbeat_internal ports c)
  unfolding heartbeat_internal
  heartbeat_internal-of_fenced = first_check _

  release_internal-of_fenced : Refuses c (release_internal ports c)
  unfolding release_internal
  release_internal-of_fenced = first_check _

  resize_internal-of_fenced : (n : ℕ) → Refuses c (resize_internal ports n c)
  unfolding resize_internal
  resize_internal-of_fenced n = first_check _

  background_heartbeat-of_fenced : Refuses c (background_heartbeat ports c)
  unfolding background_heartbeat
  background_heartbeat-of_fenced = elim (Bool-cases c.lab.offline_reserved) [
    | inl h ↦ elim (Bool-cases c.lab.held) [
      | inl k ↦ rw (h, k, fenced) ((_, refl), refl, refl)
      | inr k ↦ rw (h, k) ((_, refl), refl, refl)
    ]
    | inr h ↦ ground (arith, heartbeat_internal-of_fenced)
  ]

  acquire_internal-of_fenced : (r : Option String) → Refuses c (acquire_internal ports r c)
  unfolding acquire_internal
  acquire_internal-of_fenced r = elim (Bool-cases c.lab.held) [
    | inl h ↦ rw (h, fenced) ((_, refl), refl, refl)
    | inr h ↦ rw (h, fenced) ((_, refl), refl, refl)
  ]

  acquire_recovery_internal-of_fenced :
      (l : Lease) (r : String) → Refuses c (acquire_recovery_internal ports l r c)
  unfolding acquire_recovery_internal
  acquire_recovery_internal-of_fenced l r = elim (Bool-cases c.lab.held) [
    | inl h ↦ rw (h, fenced) ((_, refl), refl, refl)
    | inr h ↦ rw (h, fenced) ((_, refl), refl, refl)
  ]

  reserve_offline_window-of_fenced : (n : ℕ) → Refuses c (reserve_offline_window ports n c)
  unfolding reserve_offline_window
  reserve_offline_window-of_fenced n =
      guard_then c (can_reserve c.lab n) ReasonCode.config
        (resize_internal ports n >> set_lab ports (λ lab. record lab { offline_reserved = true }))
        fenced (after_refusal c _ (resize_internal ports n c) (resize_internal-of_fenced n))

  finish_offline_window-of_fenced : Refuses c (finish_offline_window ports c)
  unfolding finish_offline_window
  finish_offline_window-of_fenced =
      let ordinary = c.lab.ordinary_duration_seconds in
      guard_then c c.lab.offline_reserved ReasonCode.config
        (resize_internal ports ordinary
          >> set_lab ports (λ lab. record lab { offline_reserved = false }))
        fenced
        (after_refusal c _ (resize_internal ports ordinary c) (resize_internal-of_fenced ordinary))

-- On a fenced object every method throws, reaches no port (neither the Lease nor the clock nor the
-- receipt file), and leaves the object fenced.
pub perform-of_fenced :
    {W : Type 0} (ports : Ports W) (m : Method) (c : Cell W)
    → c.lab.fenced ≡ true
    → Refuses c (perform ports m c)
unfolding perform
perform-of_fenced ports (Method.acquire r) c h = acquire_internal-of_fenced ports c h r
perform-of_fenced ports (Method.acquire_recovery l r) c h =
    acquire_recovery_internal-of_fenced ports c h l r
perform-of_fenced ports Method.assert_held c h =
    rw (assert_held_internal-of_fenced ports c h) ((_, refl), refl, refl)
perform-of_fenced ports Method.heartbeat c h = heartbeat_internal-of_fenced ports c h
perform-of_fenced ports Method.background c h = background_heartbeat-of_fenced ports c h
perform-of_fenced ports (Method.reserve n) c h = reserve_offline_window-of_fenced ports c h n
perform-of_fenced ports Method.finish c h = finish_offline_window-of_fenced ports c h
perform-of_fenced ports Method.release c h = release_internal-of_fenced ports c h

-- Once an object is fenced, no sequence of calls on it reaches a port again or lifts the fence.
pub run-of_fenced :
    {W : Type 0} (ports : Ports W) (ms : List Method) (c : Cell W)
    → c.lab.fenced ≡ true
    → ((run ports ms c).world ≡ c.world) × ((run ports ms c).lab.fenced ≡ true)
unfolding run
run-of_fenced ports [] c h = (refl, h)
run-of_fenced ports (m ∷ ms) c h =
    let refused = perform-of_fenced ports m c h in
    let rest = run-of_fenced ports ms (perform ports m c).1 refused.2 in
    (rest.0 ∙ refused.1, rest.1)

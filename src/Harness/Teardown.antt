-- ===== src/Harness/Teardown.antt =====
-- withCleanup, dashboard/apps/web/regression/core/run-lifecycle.ts.
use aippliance_magic_stick.Prelude.{Bool, true, false, not, if◌then◌else◌, ◌≡◌, refl}
use aippliance_magic_stick.Prelude.Result.{
  Result, ok, err, Action, throw, modify, try_catch, handle, finished, finally, ◌>>◌,
}

-- What the caller sees is the first failure.
abbrev pub first_failure : {E A : Type 0} → Result E A → Result E (Unit {0}) → Result E A
first_failure (err e) r = err e
first_failure (ok a) (err e) = err e
first_failure (ok a) (ok u) = ok a

-- The state of the callers, and the variable `failed`.
abbrev Local : Type 0 → Type 0
Local S = S × Bool

module _ {E S : Type 0} where
  -- A callback knows nothing of `failed`.
  abbrev call : {A : Type 0} → Action E S A → Action E (Local S) A
  call m (s, failed) = ((m s).0, ((m s).1, failed))

  abbrev set_failed : Action E (Local S) (Unit {0})
  set_failed = modify (λ l. (l.0, true))

  -- `if (!failed) throw error;`
  abbrev throw_unless_failed : E → Action E (Local S) (Unit {0})
  throw_unless_failed error l = (if not l.1 then err error else ok tt, l)

  abbrev body : {A : Type 0} → Action E S A → Action E S (Unit {0}) → Action E (Local S) A
  body action cleanup =
      finally (try_catch (call action) (λ error. set_failed >> throw error))
        (try_catch (call cleanup) throw_unless_failed)

  abbrev without_local : {A : Type 0} → Result E A × Local S → Result E A × S
  without_local (r, l) = (r, l.0)

  unfoldable pub with_cleanup : {A : Type 0} → Action E S A → Action E S (Unit {0}) → Action E S A
  with_cleanup action cleanup s = without_local (body action cleanup (s, false))

  -- The `finally` block, by how the action and the cleanup ended.
  after_ok :
      {A : Type 0} (a : A) (q : Result E (Unit {0}) × S)
      → without_local (finished (ok a) (handle throw_unless_failed (q.0, (q.1, false))))
        ≡ (first_failure (ok a) q.0, q.1)
  after_ok a (ok u, t) = refl
  after_ok a (err e, t) = refl

  after_err :
      {A : Type 0} (error : E) (q : Result E (Unit {0}) × S)
      → without_local {A = A} (finished (err error) (handle throw_unless_failed (q.0, (q.1, true))))
        ≡ (err error, q.1)
  after_err error (ok u, t) = refl
  after_err error (err e, t) = refl

  after_action :
      {A : Type 0} (cleanup : Action E S (Unit {0})) (r : Result E A × S)
      → let caught = handle (λ error. set_failed >> throw error) (r.0, (r.1, false)) in
        without_local (finished (caught.0) (try_catch (call cleanup) throw_unless_failed caught.1))
        ≡ (first_failure r.0 (cleanup r.1).0, (cleanup r.1).1)
  after_action cleanup (ok a, t) = after_ok a (cleanup t)
  after_action cleanup (err e, t) = after_err e (cleanup t)

  -- The cleanup always runs, once, on the state that the action left, and the result is the first
  -- failure of the two, or the action's value if neither failed.
  pub with_cleanup-runs :
      {A : Type 0} (action : Action E S A) (cleanup : Action E S (Unit {0})) (s : S)
      → with_cleanup action cleanup s
        ≡ (first_failure (action s).0 (cleanup (action s).1).0, (cleanup (action s).1).1)
  unfolding with_cleanup
  with_cleanup-runs action cleanup s = after_action cleanup (action s)

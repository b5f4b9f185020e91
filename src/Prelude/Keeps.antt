-- ===== src/Prelude/Keeps.antt =====
-- A property of the state that an action keeps, whether it returns or throws, with one rule for
-- each way in which the actions are put together.
use mathlib.Core.Bool.{Bool, true, false}
use aippliance_magic_stick.Prelude.Tests.{if◌then◌else◌}
use aippliance_magic_stick.Prelude.Result.{
  Result, ok, err, Action, pure, throw, continue, handle, ◌>>=◌, ◌>>◌, try_catch, attempt, finished,
  finally,
}

pub record Keeps {E S A : Type 0} (P : S → Type 0) (m : Action E S A) : Type 0 where
  pub at : (s : S) → P s → P (m s).1

module _ {E S A : Type 0} (P : S → Type 0) where
  pub Keeps-pure : (a : A) → Keeps P (pure {E = E} {S = S} a)
  Keeps-pure a = record { at = λ s p. p }

  pub Keeps-throw : (e : E) → Keeps P (throw {E = E} {S = S} {A = A} e)
  Keeps-throw e = record { at = λ s p. p }

module _ {E S : Type 0} (P : S → Type 0) where
  continue_at :
      {A B : Type 0} (f : A → Action E S B)
      → ((a : A) → Keeps P (f a))
      → (r : Result E A × S) → P r.1
      → P (continue f r).1
  continue_at f h (ok a, s) p = (h a).at s p
  continue_at f h (err e, s) p = p

  pub Keeps-bind :
      {A B : Type 0} (m : Action E S A) (f : A → Action E S B)
      → Keeps P m
      → ((a : A) → Keeps P (f a))
      → Keeps P (m >>= f)
  Keeps-bind m f km kf = record { at = λ s p. continue_at f kf (m s) (km.at s p) }

  pub Keeps-then :
      {A B : Type 0} (m : Action E S A) (k : Action E S B)
      → Keeps P m
      → Keeps P k
      → Keeps P (m >> k)
  Keeps-then m k km kk = Keeps-bind m (λ _. k) km (λ _. kk)

  handle_at :
      {A : Type 0} (h : E → Action E S A)
      → ((e : E) → Keeps P (h e))
      → (r : Result E A × S) → P r.1
      → P (handle h r).1
  handle_at h k (ok a, s) p = p
  handle_at h k (err e, s) p = (k e).at s p

  pub Keeps-try_catch :
      {A : Type 0} (m : Action E S A) (h : E → Action E S A)
      → Keeps P m
      → ((e : E) → Keeps P (h e))
      → Keeps P (try_catch m h)
  Keeps-try_catch m h km kh = record { at = λ s p. handle_at h kh (m s) (km.at s p) }

  pub Keeps-attempt : {A : Type 0} (m : Action E S A) → Keeps P m → Keeps P (attempt m)
  Keeps-attempt m km = record { at = λ s p. km.at s p }

  finished_at :
      {A : Type 0} (r : Result E A) (x : Result E (Unit {0}) × S) → P x.1 → P (finished r x).1
  finished_at r (ok u, t) h = h
  finished_at r (err e, t) h = h

  pub Keeps-finally :
      {A : Type 0} (m : Action E S A) (k : Action E S (Unit {0}))
      → Keeps P m
      → Keeps P k
      → Keeps P (finally m k)
  Keeps-finally m k km kk = record {
    at = λ s p. finished_at (m s).0 (k (m s).1) (kk.at (m s).1 (km.at s p));
  }

  -- The action is chosen by reading the state.
  pub Keeps-reading :
      {A : Type 0} (f : S → Action E S A) → ((s : S) → Keeps P (f s)) → Keeps P (λ s. f s s)
  Keeps-reading f k = record { at = λ s p. (k s).at s p }

  if_at : {A : Type 0} (b : Bool) (x y : Result E A × S) → P x.1 → P y.1 → P (if b then x else y).1
  if_at true x y p q = p
  if_at false x y p q = q

  pub Keeps-if :
      {A : Type 0} (b : S → Bool) (m n : Action E S A)
      → Keeps P m
      → Keeps P n
      → Keeps P (λ s. if b s then m s else n s)
  Keeps-if b m n km kn = record { at = λ s p. if_at (b s) (m s) (n s) (km.at s p) (kn.at s p) }

-- What holds of a result that was returned, with the state it leaves.
abbrev pub Returns : {E S A : Type 0} → (A → S → Type 0) → Result E A × S → Type 0
Returns Q (ok a, s) = Q a s
Returns Q (err e, s) = Unit

module _ {E S : Type 0} where
  pub Returns-continue :
      {A B : Type 0} (R : A → S → Type 0) (Q : B → S → Type 0) (f : A → Action E S B)
      (r : Result E A × S)
      → Returns R r
      → ((a : A) (s : S) → R a s → Returns Q (f a s))
      → Returns Q (continue f r)
  Returns-continue R Q f (ok a, s) h k = k a s h
  Returns-continue R Q f (err e, s) h k = tt

  pub Returns-handle :
      {A : Type 0} (Q : A → S → Type 0) (h : E → Action E S A) (r : Result E A × S)
      → Returns Q r
      → ((e : E) (s : S) → Returns Q (h e s))
      → Returns Q (handle h r)
  Returns-handle Q h (ok a, s) p k = p
  Returns-handle Q h (err e, s) p k = k e s

  -- A kept property holds of what is returned too.
  pub Returns-of_kept :
      {A : Type 0} (P : S → Type 0) (r : Result E A × S) → P r.1 → Returns (λ _ s. P s) r
  Returns-of_kept P (ok a, s) h = h
  Returns-of_kept P (err e, s) h = tt

-- ===== src/Prelude/Result.antt =====
-- A call that may throw, and a method call: it returns or throws, and the state it leaves stays.
use mathlib.Core.Path.{◌≡◌, refl, ap}
use native.Mathlib.Omega.{arith}

pub data Result (E : Type 0) (A : Type 0) : Type 0 where
  ok : A → Result E A
  err : E → Result E A

abbrev pub Action : Type 0 → Type 0 → Type 0 → Type 0
Action E S A = S → Result E A × S

module _ {E S A : Type 0} where
  abbrev pub pure : A → Action E S A
  pure a s = (ok a, s)

  abbrev pub throw : E → Action E S A
  throw e s = (err e, s)

  abbrev pub gets : (S → A) → Action E S A
  gets f s = (ok (f s), s)

  abbrev pub lift : Result E A → Action E S A
  lift r s = (r, s)

abbrev pub continue : {E S A B : Type 0} → (A → Action E S B) → Result E A × S → Result E B × S
continue f (ok a, s) = f a s
continue f (err e, s) = (err e, s)

infixl 5 ◌>>=◌ ◌>>◌
abbrev pub ◌>>=◌ : {E S A B : Type 0} → Action E S A → (A → Action E S B) → Action E S B
◌>>=◌ m f s = continue f (m s)

abbrev pub ◌>>◌ : {E S A B : Type 0} → Action E S A → Action E S B → Action E S B
m >> k = m >>= λ _. k

abbrev pub modify : {E S : Type 0} → (S → S) → Action E S (Unit {0})
modify f s = (ok tt, f s)

abbrev pub handle : {E S A : Type 0} → (E → Action E S A) → Result E A × S → Result E A × S
handle h (ok a, s) = (ok a, s)
handle h (err e, s) = h e s

-- `try { m } catch(e) { handler(e) }`: the handler sees the state that the failure left.
abbrev pub try_catch : {E S A : Type 0} → Action E S A → (E → Action E S A) → Action E S A
try_catch m h s = handle h (m s)

-- `await p` whose failure the code discards: `.catch(()=>{})`.
abbrev pub attempt : {E S A : Type 0} → Action E S A → Action E S (Unit {0})
attempt m s = (ok tt, (m s).1)

-- The steps of a chain, by how the first action ends.
module _ {E S A B : Type 0} (m : Action E S A) (f : A → Action E S B) {s : S} where
  pub bind-of_err : {s' : S} {e : E} → m s ≡ (err e, s') → (m >>= f) s ≡ (err e, s')
  bind-of_err h = ap (continue f) h

  pub bind-of_ok : {s' : S} {a : A} → m s ≡ (ok a, s') → (m >>= f) s ≡ f a s'
  bind-of_ok h = ap (continue f) h

continue-eq_ok :
    {E S A B : Type 0} (f : A → Action E S B) (r : Result E A × S) {b : B} {t : S}
    → continue f r ≡ (ok b, t)
    → (a : A) × (u : S) × (r ≡ (ok a, u)) × (f a u ≡ (ok b, t))
continue-eq_ok f (ok a, u) h = (a, u, refl, h)
continue-eq_ok f (err e, u) h = absurd (ground (arith, ap (λ x. x.0) h))

-- What a chain that returned has gone through.
pub bind-eq_ok :
    {E S A B : Type 0} (m : Action E S A) (f : A → Action E S B) {s : S} {b : B} {t : S}
    → (m >>= f) s ≡ (ok b, t)
    → (a : A) × (u : S) × (m s ≡ (ok a, u)) × (f a u ≡ (ok b, t))
bind-eq_ok m f {s} h = continue-eq_ok f (m s) h

abbrev pub finished : {E S A : Type 0} → Result E A → Result E (Unit {0}) × S → Result E A × S
finished r (ok u, t) = (r, t)
finished r (err e, t) = (err e, t)

-- `try { m } finally { k }`: what `k` throws takes the place of how `m` ended.
abbrev pub finally : {E S A : Type 0} → Action E S A → Action E S (Unit {0}) → Action E S A
finally m k s = finished (m s).0 (k (m s).1)

-- ===== src/Harness/Poll/Ends.antt =====
-- The poll (poll.ts) ends, and what it returns was accepted.
use aippliance_magic_stick.Prelude.{
  ℕ, zero, suc, ◌+◌, ◌-◌, ◌≤◌, ◌<◌, min, Bool, true, Option, none, some, ◌&&◌, ltb, ltb→lt, ◌≡◌,
  refl, arith, if_holds,
}
use aippliance_magic_stick.Prelude.Result.{Result, ok, err}
use aippliance_magic_stick.Harness.Errors.{Stage, Thrown}
use aippliance_magic_stick.Harness.Poll.{
  Ports, Round, done, again, timed_out, waited, rest_of_round, judge, answered, unless_aborted,
  round, next_interval, loop, poll,
}

-- `clock` is the time of a world. Reading the clock tells a time between those before and after;
-- no call turns the clock back, and a wait of at least one tick moves it on.
pub record IsTimed {W A : Type 0} (ports : Ports W A) (clock : W → ℕ) : Type 0 where
  pub now_tells : (w : W) → (clock w ≤ (ports.now w).0) × ((ports.now w).0 ≤ clock (ports.now w).1)
  pub abort_keeps : (w : W) → clock w ≤ clock (ports.throw_if_aborted w).1
  pub read_keeps : (n : ℕ) (w : W) → clock w ≤ clock (ports.read n w).1
  pub wait_moves : (n : ℕ) (w : W) → 1 ≤ n → clock w < clock (ports.wait n w).1

module _ {W A : Type 0} (ports : Ports W A) (accept : A → Bool) (stage : Option Stage)
    (clock : W → ℕ) (timed : IsTimed ports clock) where
  -- What is returned was accepted.
  abbrev pub Accepted : Result Thrown A × W → Type 0
  Accepted (ok a, w) = accept a ≡ true
  Accepted (err e, w) = Unit

  -- A round that asks for another one has moved the clock, and found it before the deadline.
  abbrev Moves : ℕ → ℕ → Round ports accept stage → Type 0
  Moves start deadline (done r) = Accepted r
  Moves start deadline (again w) = start < clock w × (start < deadline)

  accepted : (t d : ℕ) (b : Bool) → (ltb t d && b) ≡ true → b ≡ true
  accepted t d b h = ground (arith, h)

  waited-Moves :
      (s d : ℕ) (r : Result Thrown (Unit {0}) × W)
      → s < clock r.1
      → s < d
      → Moves s d (waited ports accept stage r)
  waited-Moves s d (ok u, w) h k = (h, k)
  waited-Moves s d (err e, w) h k = tt

  rest_of_round-Moves :
      (s d i : ℕ) (w : W) → 1 ≤ i → s ≤ clock w → Moves s d (rest_of_round ports accept stage d i w)
  unfolding rest_of_round
  rest_of_round-Moves s d i w h k =
      let t : ℕ = (ports.now w).0 in
      let w' : W = (ports.now w).1 in
      let wait = ports.wait (min i (d - t)) w' in
      if_holds (Moves s d) (ltb t d) (waited ports accept stage wait)
        (timed_out ports accept stage w')
        (λ b.
          let lt : t < d = ltb→lt t d b in
          waited-Moves s d wait
            (omega (arith, timed.now_tells w, timed.wait_moves (min i (d - t)) w' (ground arith)))
            (omega (arith, timed.now_tells w)))
        tt

  judge-Moves :
      (s d i : ℕ) (a : A) (w : W)
      → 1 ≤ i
      → s ≤ clock w
      → Moves s d (judge ports accept stage d i a w)
  unfolding judge
  judge-Moves s d i a w h k =
      let t : ℕ = (ports.now w).0 in
      let w' : W = (ports.now w).1 in
      if_holds (Moves s d) (ltb t d && accept a) (done (ok a, w'))
        (rest_of_round ports accept stage d i w') (λ b. accepted t d (accept a) b)
        (rest_of_round-Moves s d i w' h (omega (arith, timed.now_tells w)))

  answered-Moves :
      (s d i : ℕ) (r : Result Thrown (Option A) × W)
      → 1 ≤ i
      → s ≤ clock r.1
      → Moves s d (answered ports accept stage d i r)
  answered-Moves s d i (err e, w) h k = tt
  answered-Moves s d i (ok none, w) h k = tt
  answered-Moves s d i (ok (some a), w) h k = judge-Moves s d i a w h k

  unless_aborted-Moves :
      (s d i : ℕ) (r : Result Thrown (Unit {0}) × W)
      → 1 ≤ i
      → s ≤ clock r.1
      → Moves s d (unless_aborted ports accept stage d i r)
  unless_aborted-Moves s d i (err e, w) h k = tt
  unless_aborted-Moves s d i (ok u, w) h k =
      let t : ℕ = (ports.now w).0 in
      answered-Moves s d i (ports.read (d - t) (ports.now w).1) h
        (omega (arith, timed.now_tells w, timed.read_keeps (d - t) (ports.now w).1))

  round-Moves : (d i : ℕ) (w : W) → 1 ≤ i → Moves (clock w) d (round ports accept stage d i w)
  unfolding round
  round-Moves d i w h =
      let t : ℕ = (ports.now w).0 in
      let w' : W = (ports.now w).1 in
      if_holds (Moves (clock w) d) (ltb t d)
        (unless_aborted ports accept stage d i (ports.throw_if_aborted w'))
        (timed_out ports accept stage w')
        (λ _.
          unless_aborted-Moves (clock w) d i (ports.throw_if_aborted w') h
            (omega (arith, timed.now_tells w, timed.abort_keeps w')))
        tt

  next_interval_positive : (i : ℕ) → 1 ≤ i → 1 ≤ next_interval ports accept stage i
  next_interval_positive i h = ground arith

  abbrev Answers : Option (Result Thrown A × W) → Type 0
  Answers o = (r : Result Thrown A × W) × (o ≡ some r) × Accepted r

  -- A round, and the rest of the loop after it.
  abbrev after :
      (W → Option (Result Thrown A × W)) → Round ports accept stage → Option (Result Thrown A × W)
  after k r = elim r [ done x ↦ some x | again w ↦ k w ]

  after_ends :
      (k : W → Option (Result Thrown A × W)) (s d : ℕ) (r : Round ports accept stage)
      → Moves s d r
      → ((w : W) → s < clock w → s < d → Answers (k w))
      → Answers (after k r)
  after_ends k s d (done x) m h = (x, refl, m)
  after_ends k s d (again w) m h = h w m.0 m.1

  loop_ends :
      (fuel d i : ℕ) (w : W)
      → 1 ≤ i
      → d - clock w < fuel
      → Answers (loop ports accept stage fuel d i w)
  unfolding loop
  loop_ends zero d i w h k = elim k [ ]
  loop_ends (suc fuel) d i w h k =
      let next : ℕ = next_interval ports accept stage i in
      after_ends (loop ports accept stage fuel d next) (clock w) d (round ports accept stage d i w)
        (round-Moves d i w h)
        (λ w' moved early.
          loop_ends fuel d next w' (next_interval_positive i h) (omega (arith, moved, early, k)))

  -- With a clock that a wait of at least one tick moves on, and an interval of at least one tick, a
  -- poll ends: as many rounds as its timeout has ticks, and one, are enough, whatever the reads
  -- answer or throw; and a value that it returns was accepted.
  pub poll_ends :
      (timeout interval : ℕ) (w : W)
      → 1 ≤ interval
      → (r : Result Thrown A × W) × (poll ports accept stage timeout interval w ≡ some r)
        × Accepted r
  unfolding poll
  poll_ends timeout interval w h =
      let t : ℕ = (ports.now w).0 in
      loop_ends (suc timeout) (t + timeout) interval (ports.now w).1 h
        (omega (arith, timed.now_tells w))

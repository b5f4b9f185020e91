-- ===== src/Harness/Poll/Keeping.antt =====
-- What a poll (poll.ts) leaves as it was: a property of the state that its ports keep.
use aippliance_magic_stick.Prelude.{
  ℕ, zero, suc, ◌-◌, min, Bool, Option, none, some, ◌&&◌, ltb, if_holds,
}
use aippliance_magic_stick.Prelude.Result.{Result, ok, err}
use aippliance_magic_stick.Prelude.Keeps.{Keeps}
use aippliance_magic_stick.Harness.Errors.{Stage, Thrown}
use aippliance_magic_stick.Harness.Poll.{
  Ports, Round, done, again, timed_out, waited, rest_of_round, judge, answered, unless_aborted,
  round, next_interval, loop, poll,
}

pub record PortsKeep {W A : Type 0} (ports : Ports W A) (P : W → Type 0) : Type 0 where
  pub now_keeps : (w : W) → P w → P (ports.now w).1
  pub abort_keeps : Keeps P ports.throw_if_aborted
  pub read_keeps : (n : ℕ) → Keeps P (ports.read n)
  pub wait_keeps : (n : ℕ) → Keeps P (ports.wait n)

-- What holds of the state in which a poll ended.
abbrev pub Ended : {W A : Type 0} → (W → Type 0) → Option (Result Thrown A × W) → Type 0
Ended P none = Unit
Ended P (some r) = P r.1

module _ {W A : Type 0} (ports : Ports W A) (accept : A → Bool) (stage : Option Stage)
    (P : W → Type 0) (keep : PortsKeep ports P) where
  abbrev Left : Round ports accept stage → Type 0
  Left (done r) = P r.1
  Left (again w) = P w

  waited-Left : (r : Result Thrown (Unit {0}) × W) → P r.1 → Left (waited ports accept stage r)
  waited-Left (ok u, w) h = h
  waited-Left (err e, w) h = h

  rest_of_round-Left : (d i : ℕ) (w : W) → P w → Left (rest_of_round ports accept stage d i w)
  unfolding rest_of_round
  rest_of_round-Left d i w h =
      let (t, w') = ports.now w in
      let kept = keep.now_keeps w h in
      let wait = ports.wait (min i (d - t)) w' in
      if_holds Left (ltb t d) (waited ports accept stage wait) (timed_out ports accept stage w')
        (λ _. waited-Left wait ((keep.wait_keeps (min i (d - t))).at w' kept)) kept

  judge-Left : (d i : ℕ) (a : A) (w : W) → P w → Left (judge ports accept stage d i a w)
  unfolding judge
  judge-Left d i a w h =
      let (t, w') = ports.now w in
      let kept = keep.now_keeps w h in
      if_holds Left (ltb t d && accept a) (done (ok a, w'))
        (rest_of_round ports accept stage d i w') (λ _. kept) (rest_of_round-Left d i w' kept)

  answered-Left :
      (d i : ℕ) (r : Result Thrown (Option A) × W)
      → P r.1
      → Left (answered ports accept stage d i r)
  answered-Left d i (err e, w) h = h
  answered-Left d i (ok none, w) h = h
  answered-Left d i (ok (some a), w) h = judge-Left d i a w h

  unless_aborted-Left :
      (d i : ℕ) (r : Result Thrown (Unit {0}) × W)
      → P r.1
      → Left (unless_aborted ports accept stage d i r)
  unless_aborted-Left d i (err e, w) h = h
  unless_aborted-Left d i (ok u, w) h =
      let (t, w') = ports.now w in
      answered-Left d i (ports.read (d - t) w')
        ((keep.read_keeps (d - t)).at w' (keep.now_keeps w h))

  round-Left : (d i : ℕ) (w : W) → P w → Left (round ports accept stage d i w)
  unfolding round
  round-Left d i w h =
      let (t, w') = ports.now w in
      let kept = keep.now_keeps w h in
      if_holds Left (ltb t d) (unless_aborted ports accept stage d i (ports.throw_if_aborted w'))
        (timed_out ports accept stage w')
        (λ _. unless_aborted-Left d i (ports.throw_if_aborted w') (keep.abort_keeps.at w' kept))
        kept

  loop-Ended : (fuel d i : ℕ) (w : W) → P w → Ended P (loop ports accept stage fuel d i w)
  unfolding loop
  loop-Ended zero d i w h = tt
  loop-Ended (suc fuel) d i w h =
      after (loop ports accept stage fuel d (next_interval ports accept stage i))
        (round ports accept stage d i w) (round-Left d i w h)
        (λ w' k. loop-Ended fuel d (next_interval ports accept stage i) w' k)
    where
      after :
          (k : W → Option (Result Thrown A × W)) (r : Round ports accept stage)
          → Left r
          → ((w' : W) → P w' → Ended P (k w'))
          → Ended P (elim r [ done x ↦ some x | again w' ↦ k w' ])
      after k (done x) l h = l
      after k (again w') l h = h w' l

  -- What the ports keep is kept by the poll, however it ends.
  pub poll-Ended :
      (timeout interval : ℕ) (w : W) → P w → Ended P (poll ports accept stage timeout interval w)
  unfolding poll
  poll-Ended timeout interval w h =
      let (t, w') = ports.now w in loop-Ended (suc timeout) _ interval w' (keep.now_keeps w h)

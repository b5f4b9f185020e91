-- ===== src/Harness/Poll.antt =====
-- Polling until a value is accepted or the deadline has come,
-- dashboard/apps/web/regression/core/poll.ts. The clock, the wait, the abort signal and the read
-- are ports; time is counted in whole ticks. A read races with a timer: it answers `none` when the
-- timer, set for the time left, comes first.
pub mod Ends
pub mod Keeping
pub mod Tests
use aippliance_magic_stick.Prelude.{
  ℕ, zero, suc, ◌+◌, ◌-◌, ◌*◌, ◌/◌, min, Bool, true, false, Option, none, some, List, [], ◌∷◌,
  String, ◌&&◌, if◌then◌else◌, or_option, ltb, ◌==◌, any,
}
use aippliance_magic_stick.Prelude.Result.{Result, ok, err, Action}
use aippliance_magic_stick.Prelude.Text.{str_eq, same_text}
use aippliance_magic_stick.Harness.Errors.{Outcome, Stage, ReasonCode, Thrown, harness, new_error}

pub record Ports (W A : Type 0) : Type 0 where
  pub now : W → ℕ × W
  pub throw_if_aborted : Action Thrown W (Unit {0})
  pub read : ℕ → Action Thrown W (Option A)
  pub wait : ℕ → Action Thrown W (Unit {0})

-- `new HarnessError('DEADLINE', 'Failed', options.stage)`
abbrev pub deadline_error : Option Stage → Thrown
deadline_error stage = harness (new_error ReasonCode.deadline Outcome.failed stage none)

module _ {W A : Type 0} (ports : Ports W A) (accept : A → Bool) (stage : Option Stage) where
  -- How one round ends: with the answer of the poll, or with the need of another round.
  pub data Round : Type 0 where
    done : Result Thrown A × W → Round
    again : W → Round

  abbrev pub timed_out : W → Round
  timed_out w = done (err (deadline_error stage), w)

  -- `await wait(Math.min(interval, remaining))`
  abbrev pub waited : Result Thrown (Unit {0}) × W → Round
  waited (ok u, w) = again w
  waited (err e, w) = done (err e, w)

  -- From `const remaining` to the end of the loop's body.
  unfoldable pub rest_of_round : ℕ → ℕ → W → Round
  rest_of_round deadline interval w =
      let (t, w') = ports.now w in
      if ltb t deadline then waited (ports.wait (min interval (deadline - t)) w') else timed_out w'

  -- `if (now() < deadline && accept(value)) return value;`
  unfoldable pub judge : ℕ → ℕ → A → W → Round
  unfolding rest_of_round
  judge deadline interval value w =
      let (t, w') = ports.now w in
      if ltb t deadline && accept value
      then done (ok value, w')
      else rest_of_round deadline interval w'

  abbrev pub answered : ℕ → ℕ → Result Thrown (Option A) × W → Round
  answered deadline interval (err e, w) = done (err e, w)
  answered deadline interval (ok none, w) = timed_out w
  answered deadline interval (ok (some value), w) = judge deadline interval value w

  abbrev pub unless_aborted : ℕ → ℕ → Result Thrown (Unit {0}) × W → Round
  unless_aborted deadline interval (err e, w) = done (err e, w)
  unless_aborted deadline interval (ok u, w) =
      let (t, w') = ports.now w in answered deadline interval (ports.read (deadline - t) w')

  -- One pass of the loop, its condition included.
  unfoldable pub round : ℕ → ℕ → W → Round
  unfolding judge rest_of_round
  round deadline interval w =
      let (t, w') = ports.now w in
      if ltb t deadline
      then unless_aborted deadline interval (ports.throw_if_aborted w')
      else timed_out w'

  -- `Math.min(Math.ceil(interval * 1.5), 1000)`
  abbrev pub next_interval : ℕ → ℕ
  next_interval interval = min ((3 * interval + 1) / 2) 1000

  -- The loop; `none` when the fuel has run out.
  unfoldable pub loop : ℕ → ℕ → ℕ → W → Option (Result Thrown A × W)
  loop zero deadline interval w = none
  loop (suc fuel) deadline interval w = elim (round deadline interval w) [
    | done r ↦ some r
    | again w' ↦ loop fuel deadline (next_interval interval) w'
  ]

  -- `poll(read, accept, {timeoutMs, intervalMs, stage, ...})`, with one round for each tick.
  unfoldable pub poll : ℕ → ℕ → W → Option (Result Thrown A × W)
  unfolding loop
  poll timeout interval w =
      let (t, w') = ports.now w in loop (suc timeout) (t + timeout) interval w'

-- The part of a resource that `currentReady` reads.
pub record Condition : Type 0 where
  pub type : Option String
  pub status : Option String
  pub observed_generation : Option ℕ

pub record Observed : Type 0 where
  pub uid : Option String
  pub generation : Option ℕ
  pub observed_generation : Option ℕ
  pub conditions : List Condition

abbrev pub is_number : Option ℕ → ℕ → Bool
is_number none n = false
is_number (some m) n = m == n

unfoldable pub current_ready : Observed → String → ℕ → Bool
current_ready value uid generation =
    same_text value.uid (some uid)
    && is_number value.generation generation
    && any
        (λ condition.
          same_text condition.type (some "Ready")
          && same_text condition.status (some "True")
          && is_number (or_option condition.observed_generation value.observed_generation)
              generation)
        value.conditions

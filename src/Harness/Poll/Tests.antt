-- ===== src/Harness/Poll/Tests.antt =====
-- Examples for poll.ts.
use aippliance_magic_stick.Prelude.{ℕ, ◌+◌, Bool, true, none, some, [], ◌∷◌, ◌≡◌, refl, ltb, arith}
use aippliance_magic_stick.Prelude.Result.{Result, ok, err}
use aippliance_magic_stick.Harness.Errors.{Thrown, Stage}
use aippliance_magic_stick.Harness.Poll.{
  Ports, poll, loop, round, deadline_error, Observed, current_ready, rest_of_round, judge,
}
use aippliance_magic_stick.Harness.Poll.Ends.{IsTimed, Accepted, poll_ends}

-- A world that is its clock; a read tells the time.
abbrev ticking : Ports ℕ ℕ
ticking = record {
  now = λ w. (w, w);
  throw_if_aborted = λ w. (ok tt, w);
  read = λ n w. (ok (some w), w);
  wait = λ n w. (ok tt, w + n);
}

abbrev late : ℕ → Bool
late n = ltb 20 n

ticking-IsTimed : IsTimed ticking (λ w. w)
ticking-IsTimed = record {
  now_tells = λ w. (omega arith, omega arith);
  abort_keeps = λ w. omega arith;
  read_keeps = λ n w. omega arith;
  wait_moves = λ n w h. omega arith;
}

-- Waits of 10 and 15 ticks, then the value is accepted; with a shorter timeout it is too late.
poll_accepts : poll ticking late none 100 10 0 ≡ some (ok 25, 25)
unfolding poll loop round judge rest_of_round
poll_accepts = refl

poll_gives_up : poll ticking late none 12 10 0 ≡ some (err (deadline_error none), 12)
unfolding poll loop round judge rest_of_round
poll_gives_up = refl

abbrev ready_at_two : Observed
ready_at_two = record {
  uid = some "u";
  generation = some 2;
  observed_generation = some 2;
  conditions =
      record { type = some "Ready"; status = some "True"; observed_generation = none } ∷ [];
}

current_ready_now : current_ready ready_at_two "u" 2 ≡ true
unfolding current_ready
current_ready_now = refl

poll_ends_example :
    (r : Result Thrown ℕ × ℕ) × (poll ticking late (some Stage.gpu_backend) 100 10 0 ≡ some r)
    × Accepted ticking late (some Stage.gpu_backend) (λ w. w) ticking-IsTimed r
poll_ends_example =
    poll_ends ticking late (some Stage.gpu_backend) (λ w. w) ticking-IsTimed 100 10 0 (omega arith)

-- ===== src/Harness/Heartbeat.antt =====
-- HeartbeatLoop, dashboard/apps/web/regression/core/run-lifecycle.ts, as a state machine: the calls of
-- its methods, the timers that fire and the renewals that settle, in any order. The callbacks of a
-- settled renewal run before the next event.
use aippliance_magic_stick.Prelude.{
  ℕ, suc, ◌+◌, ◌-◌, ◌≤◌, Bool, true, false, List, [], ◌∷◌, not, ◌&&◌, ltb, if◌then◌else◌, all, ◌≡◌,
  refl, arith,
}

-- `timer`: this.timer is set. `armed` counts the timers that will still fire, `waiting` the ticks of
-- timers that wait for the pending renewal, `failure` whether this.failure is truthy, `renewals` the
-- calls of `renew`.
pub record HeartbeatLoop : Type 0 where
  pub timer : Bool
  pub armed : ℕ
  pub pending : Bool
  pub waiting : ℕ
  pub failure : Bool
  pub stopped : Bool
  pub renewals : ℕ

-- `fire` is a timer that runs out; `renewed` and `refused` are a pending renewal that settles, and
-- `refused` says whether the value that it is rejected with is truthy, as an Error is.
pub data Event : Type 0 where
  start fire tick renewed stop : Event
  refused : Bool → Event

abbrev pub new_loop : HeartbeatLoop
new_loop = record {
  timer = false;
  armed = 0;
  pending = false;
  waiting = 0;
  failure = false;
  stopped = false;
  renewals = 0;
}

abbrev schedule : HeartbeatLoop → HeartbeatLoop
schedule l = record l { timer = true; armed = suc l.armed }

-- `tick` that has passed its check: the pending renewal, or a new one.
abbrev renew : HeartbeatLoop → HeartbeatLoop
renew l = record l { pending = true; renewals = if l.pending then l.renewals else suc l.renewals }

-- The callback of a timer.
abbrev on_timer : HeartbeatLoop → HeartbeatLoop
on_timer l = if l.failure then l else renew (record l { waiting = suc l.waiting })

-- The `finally` of each timer's tick.
abbrev reschedule : HeartbeatLoop → HeartbeatLoop
reschedule l =
    if not l.stopped && not l.failure && ltb 0 l.waiting
    then record l { timer = true; armed = l.armed + l.waiting; waiting = 0 }
    else record l { waiting = 0 }

unfoldable pub handle : Event → HeartbeatLoop → HeartbeatLoop
handle Event.start l = if not l.timer && not l.stopped then schedule l else l
handle Event.fire l =
    if ltb 0 l.armed then on_timer (record l { timer = false; armed = l.armed - 1 }) else l
handle Event.tick l = if l.failure then l else renew l
handle Event.renewed l = if l.pending then reschedule (record l { pending = false }) else l
handle (Event.refused truthy) l =
    if l.pending then reschedule (record l { pending = false; failure = truthy }) else l
handle Event.stop l = record l {
  timer = false;
  armed = if l.timer then l.armed - 1 else l.armed;
  stopped = true;
}

unfoldable pub run : List Event → HeartbeatLoop → HeartbeatLoop
run [] l = l
run (e ∷ es) l = run es (handle e l)

-- The loop has failed, with no renewal pending and as many calls of `renew` as a count says.
pub record HasFailed (renewals : ℕ) (l : HeartbeatLoop) : Type 0 where
  pub failed : l.failure ≡ true
  pub idle : l.pending ≡ false
  pub same : l.renewals ≡ renewals

handle-HasFailed :
    (n : ℕ) (e : Event) (l : HeartbeatLoop) → HasFailed n l → HasFailed n (handle e l)
unfolding handle
handle-HasFailed n Event.start l h = record {
  failed = ground (arith, h.failed);
  idle = ground (arith, h.idle);
  same = ground (arith, h.same);
}
handle-HasFailed n Event.fire l h = record {
  failed = ground (arith, h.failed);
  idle = ground (arith, h.failed, h.idle);
  same = ground (arith, h.failed, h.same);
}
handle-HasFailed n Event.tick l h = record {
  failed = ground (arith, h.failed);
  idle = ground (arith, h.failed, h.idle);
  same = ground (arith, h.failed, h.same);
}
handle-HasFailed n Event.renewed l h = record {
  failed = ground (arith, h.failed, h.idle);
  idle = ground (arith, h.idle);
  same = ground (arith, h.idle, h.same);
}
handle-HasFailed n (Event.refused b) l h = record {
  failed = ground (arith, h.failed, h.idle);
  idle = ground (arith, h.idle);
  same = ground (arith, h.idle, h.same);
}
handle-HasFailed n Event.stop l h = record { failed = h.failed; idle = h.idle; same = h.same }

run-HasFailed :
    (n : ℕ) (es : List Event) (l : HeartbeatLoop) → HasFailed n l → HasFailed n (run es l)
unfolding run
run-HasFailed n [] l h = h
run-HasFailed n (e ∷ es) l h = run-HasFailed n es (handle e l) (handle-HasFailed n e l h)

refused-HasFailed :
    (l : HeartbeatLoop) → l.pending ≡ true → HasFailed l.renewals (handle (Event.refused true) l)
unfolding handle
refused-HasFailed l h =
    rw h (record { failed = ground arith; idle = ground arith; same = ground arith })

-- A failed renewal is final: when a pending renewal is rejected with a truthy value, such as an
-- Error, then whatever is called, fires or settles afterwards, the loop is failed and `renew` is
-- never called again.
pub run-IsFinal :
    (l : HeartbeatLoop) (es : List Event)
    → l.pending ≡ true
    → ((run es (handle (Event.refused true) l)).failure ≡ true)
      × ((run es (handle (Event.refused true) l)).renewals ≡ l.renewals)
run-IsFinal l es h =
    let end = run-HasFailed l.renewals es (handle (Event.refused true) l) (refused-HasFailed l h) in
    (end.failed, end.same)

-- One chain of timers, which this.timer always names, and none after stop.
pub record IsSingle (l : HeartbeatLoop) : Type 0 where
  pub named : l.armed ≡ (if l.timer then 1 else 0)
  pub single : l.armed + l.waiting ≤ 1
  pub ended : l.stopped ≡ true → l.armed ≡ 0

abbrev is_start : Event → Bool
is_start Event.start = true
is_start _ = false

handle-IsSingle :
    (e : Event) (l : HeartbeatLoop) → is_start e ≡ false → IsSingle l → IsSingle (handle e l)
unfolding handle
handle-IsSingle Event.start l n h = absurd (ground (arith, n))
handle-IsSingle Event.fire l n h = record {
  named = ground (arith, h.named, h.single);
  single = ground (arith, h.named, h.single);
  ended = ground (arith, h.named, h.single, h.ended);
}
handle-IsSingle Event.tick l n h = record {
  named = ground (arith, h.named);
  single = ground (arith, h.single);
  ended = ground (arith, h.ended);
}
handle-IsSingle Event.renewed l n h = record {
  named = ground (arith, h.named, h.single);
  single = ground (arith, h.named, h.single);
  ended = ground (arith, h.ended);
}
handle-IsSingle (Event.refused b) l n h = record {
  named = ground (arith, h.named, h.single);
  single = ground (arith, h.named, h.single);
  ended = ground (arith, h.ended);
}
handle-IsSingle Event.stop l n h = record {
  named = ground (arith, h.named);
  single = ground (arith, h.named, h.single);
  ended = λ _. ground (arith, h.named);
}

run_from-IsSingle :
    (es : List Event) (l : HeartbeatLoop)
    → all (λ e. not (is_start e)) es ≡ true
    → IsSingle l
    → IsSingle (run es l)
unfolding run
run_from-IsSingle [] l n h = h
run_from-IsSingle (e ∷ es) l n h =
    run_from-IsSingle es (handle e l) (second _ _ n) (handle-IsSingle e l (first _ _ n) h)
  where
    first : (a b : Bool) → not a && b ≡ true → a ≡ false
    first a b h = ground (arith, h)

    second : (a b : Bool) → not a && b ≡ true → b ≡ true
    second a b h = ground (arith, h)

-- A loop that is started once has one chain of timers: at most one timer is armed or waits for its
-- renewal, this.timer names the armed one, and after stop no timer is armed any more.
pub run-IsSingle :
    (es : List Event)
    → all (λ e. not (is_start e)) es ≡ true
    → IsSingle (run es (handle Event.start new_loop))
unfolding handle
run-IsSingle es n =
    run_from-IsSingle es (handle Event.start new_loop) n
      (record { named = refl; single = omega arith; ended = ground arith })

-- ===== src/Harness/Sharing/Wait.antt =====
-- The call of `poll` (poll.ts) in `restore` of BorrowedSharing (borrowed-sharing.ts): a poll of the
-- current snapshot, with its time limit of ten minutes, an interval of a second, and no signal.
-- One tick is a millisecond.
use aippliance_magic_stick.Prelude.{ℕ, Bool, true, false, Option, none, some, ◌≡◌, refl, arith}
use aippliance_magic_stick.Prelude.Result.{Result, ok, err, Action, pure}
use aippliance_magic_stick.Prelude.Keeps.{Keeps}
use aippliance_magic_stick.Harness.Errors.{Stage, Thrown, other}
use aippliance_magic_stick.Harness.Poll
use aippliance_magic_stick.Harness.Poll.Ends.{IsTimed, poll_ends}
use aippliance_magic_stick.Harness.Poll.Keeping.{Ended, poll-Ended}
use aippliance_magic_stick.Harness.Sharing.Entry.{SharingData}
use aippliance_magic_stick.Harness.Sharing.Methods.{SharingSnapshot, Cell}

-- The clock, the sleep, and the race of a read with a timer set for a time: `is_late` is asked when
-- the read has ended, and says whether the timer had come first.
pub record Timing (W : Type 0) : Type 0 where
  pub now : W → ℕ × W
  pub sleep : ℕ → Action Thrown W (Unit {0})
  pub is_late : ℕ → W → Bool × W

abbrev SnapshotRead : Type 0 → Type 0
SnapshotRead W = Action Thrown (Cell W) SharingSnapshot

module _ {W : Type 0} (timing : Timing W) where
  -- What the race gives: nothing if the timer came first, even if the read threw later.
  abbrev raced : Bool → Result Thrown SharingSnapshot → Result Thrown (Option SharingSnapshot)
  raced true r = ok none
  raced false (ok value) = ok (some value)
  raced false (err e) = err e

  abbrev race : SnapshotRead W → ℕ → Action Thrown (Cell W) (Option SharingSnapshot)
  race read n c =
      let (r, c') = read c in
      let (late, w) = timing.is_late n c'.world in (raced late r, record c' { world = w })

  abbrev pub poll_ports : SnapshotRead W → Poll.Ports (Cell W) SharingSnapshot
  poll_ports read = record {
    now = λ c. let (t, w) = timing.now c.world in (t, record c { world = w });
    throw_if_aborted = pure tt;
    read = race read;
    wait = λ n c. let (r, w) = timing.sleep n c.world in (r, record c { world = w });
  }

  -- A poll that ran out of its rounds would end here; see `poll_current_ends`.
  abbrev ended : Option (Result Thrown SharingSnapshot × Cell W) → SnapshotRead W
  ended none c = (err other, c)
  ended (some r) c = r

  -- `poll(read, accept, {timeoutMs: 600_000, intervalMs: 1000, stage: 'gpu-backend'})`
  unfoldable pub poll_current : SnapshotRead W → (SharingSnapshot → Bool) → SnapshotRead W
  poll_current read accept c =
      ended (Poll.poll (poll_ports read) accept (some Stage.gpu_backend) 600000 1000 c) c

  -- The poll changes nothing on the record of borrowed settings but what its read changes.
  pub Keeps-poll_current :
      (P : SharingData → Type 0) (read : SnapshotRead W) (accept : SharingSnapshot → Bool)
      → Keeps (λ (c : Cell W). P c.sharing) read
      → Keeps (λ (c : Cell W). P c.sharing) (poll_current read accept)
  unfolding poll_current
  Keeps-poll_current P read accept kept = record {
    at = λ c h.
        from_end c h (Poll.poll (poll_ports read) accept (some Stage.gpu_backend) 600000 1000 c) (
          poll-Ended (poll_ports read) accept (some Stage.gpu_backend) (λ s. P s.sharing)
            (record {
              now_keeps = λ s k. k;
              abort_keeps = record { at = λ s k. k };
              read_keeps = λ n. record { at = kept.at };
              wait_keeps = λ n. record { at = λ s k. k };
            })
            600000 1000 c h);
  }
    where
      from_end :
          (c : Cell W)
          → P c.sharing
          → (o : Option (Result Thrown SharingSnapshot × Cell W))
          → Ended (λ (s : Cell W). P s.sharing) o
          → P (ended o c).1.sharing
      from_end c h none k = h
      from_end c h (some r) k = k

  -- With a clock that a sleep moves on, the poll never runs out of its rounds: it ends as poll.ts
  -- says.
  poll_current_ends :
      (read : SnapshotRead W) (accept : SharingSnapshot → Bool) (clock : Cell W → ℕ)
      → IsTimed (poll_ports read) clock
      → (c : Cell W)
      → (Poll.poll (poll_ports read) accept (some Stage.gpu_backend) 600000 1000 c)
        ≡ some (poll_current read accept c)
  unfolding poll_current
  poll_current_ends read accept clock timed c =
      let (r, e, a) =
        poll_ends (poll_ports read) accept (some Stage.gpu_backend) clock timed 600000 1000 c
          (omega arith) in
      rw e refl

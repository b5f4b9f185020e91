-- ===== src/Harness/Sharing/Tests.antt =====
-- Examples for borrowed-sharing.ts.
use aippliance_magic_stick.Prelude.{
  ℕ, suc, ◌+◌, ltb, if◌then◌else◌, true, false, none, some, [], ◌∷◌, ◌≡◌, refl, arith,
}
use aippliance_magic_stick.Prelude.Result.{Result, ok, err}
use aippliance_magic_stick.Prelude.Keeps.{Returns}
use aippliance_magic_stick.Harness.Errors.{ReasonCode, Thrown, of_code}
use aippliance_magic_stick.Harness.Sharing.Spec.{
  Provider, Mode, AllocationBackend, Spec, Json, absent, same_spec, default_fields, is_managed,
  object, text, sharing_spec, config_text,
}
use aippliance_magic_stick.Harness.Sharing.Entry.{
  EntryState, BorrowedEntry, Identity, is_state, is_valid_entry, resumes,
}
use aippliance_magic_stick.Harness.Sharing.Methods.{
  Backend, SharingSnapshot, accepted, Ports, Cell, current, persist, write,
}
use aippliance_magic_stick.Harness.Sharing.Borrow.{borrow, change}
use aippliance_magic_stick.Harness.Sharing.Restore.{
  restore, give_back, give_back_all, change_back, defaults_back, write_defaults, prove_original,
}
use aippliance_magic_stick.Harness.Sharing.Wait.{Timing, poll_current}
use aippliance_magic_stick.Harness.Poll
use aippliance_magic_stick.Harness.Sharing.Restored.{entry_at, Settles}
use aippliance_magic_stick.Harness.Sharing.Settled.{IsProper, restore-Settles}

abbrev plain : Spec
plain = record { parameters = absent; others = ("enabled", "true") ∷ [] }

abbrev js : Json
js = record {
  spread = λ s. record { gpu_sharing = none; validation_request = none; others = [] };
  quote = λ s. s;
  show = λ n. "2";
}

abbrev run : Identity
run = record {
  run_id = "reg-00000000-0000-4000-8000-000000000000";
  target_uid = "appliance";
  node_name = "node";
  node_uid = "node-uid";
}

abbrev seen : SharingSnapshot
seen = record {
  uid = some "uid";
  generation = some 3;
  resource_version = some "7";
  spec = some plain;
  state = record {
    provider = Provider.nvidia;
    available = true;
    managed = false;
    phase = "Ready";
    mode = Mode.exclusive;
    max_models = 2;
    backend = Backend.time_slicing;
    node_name = "node";
    node_uid = "node-uid";
    expected_revision = some "7";
  };
}

abbrev quiet : Ports (Unit {0})
quiet = record {
  read = λ p w. (ok seen, w);
  apply = λ r w. (ok accepted, w);
  assert_held = λ w. (ok tt, w);
  write_private = λ d w. (ok tt, w);
  read_private = λ w. (err (of_code ReasonCode.private_file), w);
  on_stage = λ s w. w;
}

abbrev fresh : Cell (Unit {0})
fresh = record { sharing = record { identity = run; entries = [] }; world = tt }

abbrev lent : BorrowedEntry
lent = record {
  provider = Provider.nvidia;
  uid = "uid";
  original_spec = plain;
  original_mode = Mode.exclusive;
  original_count = 2;
  original_backend = some AllocationBackend.device_plugin;
  original_defaults = default_fields plain Provider.nvidia;
  generation = 3;
  last_spec = plain;
  state = EntryState.borrowed;
}

abbrev lending : Cell (Unit {0})
lending = record { sharing = record { identity = run; entries = lent ∷ [] }; world = tt }

-- An unset default is borrowed, and the record is one that `resume` accepts.
borrow_lends : borrow js quiet Provider.nvidia fresh ≡ (ok tt, lending)
unfolding borrow persist default_fields
borrow_lends = refl

resumes_lending : resumes run lending.sharing ≡ true
unfolding resumes is_valid_entry default_fields
resumes_lending = refl

-- A node whose setting was changed: it applies requests, and is ready again one second later.
pub record Node : Type 0 where
  pub spec : Spec
  pub generation : ℕ
  pub ticks : ℕ

abbrev seen_at : Node → SharingSnapshot
seen_at w = record seen {
  generation = some w.generation;
  spec = some w.spec;
  state = record (seen.state) {
    managed = is_managed w.spec;
    phase = if ltb 0 w.ticks then "Ready" else "Updating";
  };
}

abbrev spec_or : Spec → Result Thrown Spec → Spec
spec_or old (ok s) = s
spec_or old (err e) = old

abbrev changing : Ports Node
changing = record {
  read = λ p w. (ok (seen_at w), w);
  apply = λ r w. (
    ok accepted,
    record w { spec = spec_or w.spec (sharing_spec js w.spec r); generation = suc w.generation },
  );
  assert_held = λ w. (ok tt, w);
  write_private = λ d w. (ok tt, w);
  read_private = λ w. (err (of_code ReasonCode.private_file), w);
  on_stage = λ s w. w;
}

abbrev timing : Timing Node
timing = record {
  now = λ w. (w.ticks, w);
  sleep = λ n w. (ok tt, record w { ticks = w.ticks + n });
  is_late = λ n w. (false, w);
}

abbrev managed : Spec
managed = record plain {
  parameters =
      object
        (record { gpu_sharing = some (text "shared"); validation_request = none; others = [] });
}

abbrev changed_entry : BorrowedEntry
changed_entry = record lent { last_spec = managed }

abbrev changed : Cell Node
changed = record {
  sharing = record { identity = run; entries = changed_entry ∷ [] };
  world = record { spec = managed; generation = 3; ticks = 0 };
}

-- The setting is made exclusive, the node is polled until it is ready, and the defaults are put
-- back: two changes, and one wait of a second.
restore_returns : restore js changing timing changed ≡ (
  ok tt,
  record {
    sharing = record {
      identity = run;
      entries = record lent { generation = 5; last_spec = plain; state = EntryState.restored } ∷ [];
    };
    world = record { spec = plain; generation = 5; ticks = 1000 };
  },
)
unfolding restore give_back_all give_back change_back change defaults_back write_defaults
    prove_original poll_current Poll.poll Poll.loop Poll.round Poll.judge Poll.rest_of_round current
    write persist same_spec is_managed sharing_spec config_text default_fields
restore_returns = refl

changed-IsProper : IsProper changed.sharing
changed-IsProper Provider.amd e h m = cc
changed-IsProper Provider.nvidia e h m = ground (arith, h, m)

restore-Settles_example :
    Returns
      (λ _ (s : Cell Node).
        (p : Provider) (e : BorrowedEntry)
        → entry_at p changed.sharing ≡ some e
        → Settles p s.sharing × (is_state e.state EntryState.pending ≡ false))
      (restore js changing timing changed)
restore-Settles_example = restore-Settles js changing timing changed changed-IsProper

-- ===== src/Harness/Journal/Tests.antt =====
-- Examples for journal.ts: live resources in memory, and a log of the removals.
use aippliance_magic_stick.Prelude.{
  Bool, true, false, none, some, String, List, [], ◌∷◌, ◌≡◌, refl, All, not,
}
use aippliance_magic_stick.Prelude.Result.{ok}
use aippliance_magic_stick.Prelude.Keeps.{Returns}
use aippliance_magic_stick.Prelude.Text.{is_run_id}
use aippliance_magic_stick.Harness.Journal.Entry.{
  ResourceKind, JournalEntry, JournalData, Operation, accepts, run_prefix,
}
use aippliance_magic_stick.Harness.Journal.Methods.{Ports, create, recovery_plan}
use aippliance_magic_stick.Harness.Journal.Cleanup.{Loop, cleanup, removable_uid}
use aippliance_magic_stick.Harness.Journal.Cleanup.Safety.{IsListed, cleanup-world}
use aippliance_magic_stick.Harness.Journal.Cleanup.Settled.{cleanup_settles}
use aippliance_magic_stick.Harness.Journal.Run.{Call, run, run-accepts}

-- The uid that every live resource has, whether it is still there, and the removals so far.
pub record World : Type 0 where
  pub present : Bool
  pub log : List (JournalEntry × String)

abbrev ports : Ports World
ports = record {
  write = λ j w. (ok tt, w);
  lookup = λ e w. (ok (some (record { uid = "uid-1"; generation = none })), w);
  remove_if_uid = λ e uid w. (ok tt, record w { present = false; log = (e, uid) ∷ w.log });
  verify_removed = λ e w. (ok (not w.present), w);
  assert_held = λ w. (ok tt, w);
  note = λ e o s w. (ok tt, w);
}

abbrev run_id : String
run_id = "reg-01234567-89ab-cdef-0123-456789abcdef"

abbrev journal : JournalData
journal = record {
  run_id = run_id;
  target_uid = "target";
  prefix = "reg-01234567-89a-";
  entries = [];
}

abbrev world : World
world = record { present = true; log = [] }

abbrev calls : List Call
calls =
    Call.requested ResourceKind.model "reg-01234567-89a-m"
    ∷ Call.owned ResourceKind.model "reg-01234567-89a-m" "uid-1" (some 1)
    ∷ Call.cleanup none
    ∷ []

run-accepts_example :
    accepts "target" (run ports calls (record { journal = journal; world = world })).journal ≡ true
unfolding create is_run_id run_prefix
run-accepts_example = run-accepts ports run_id "target" calls {j = journal} world refl

abbrev loop : Loop World
loop = record {
  journal = (run ports calls (record { journal = journal; world = world })).journal;
  world = world;
  operation = Operation.guard;
}

-- Every removal so far was of an owned or blocked entry, under its recorded uid.
abbrev Logged : World → Type 0
Logged w = All (λ r. IsListed r.0 loop.journal.entries × (removable_uid r.0 ≡ some r.1)) w.log

cleanup-world_example : Logged (cleanup ports none loop).1.world
cleanup-world_example =
    cleanup-world ports Logged none loop (λ e. record { at = λ w h. h })
      (λ e. record { at = λ w h. h }) (record { at = λ w h. h }) (λ e o s. record { at = λ w h. h })
      (λ j. record { at = λ w h. h }) (λ e uid k r. record { at = λ w h. ((k, r), h) }) tt

cleanup_settles_example :
    Returns (λ _ s. recovery_plan s.journal.entries ≡ []) (cleanup ports none loop)
cleanup_settles_example = cleanup_settles ports loop

-- ===== src/Harness/Journal/Run.antt =====
-- The life of a journal (journal.ts): created, then changed by any calls of its methods.
use aippliance_magic_stick.Prelude.{ℕ, true, Option, List, [], ◌∷◌, String, ◌≡◌, refl}
use aippliance_magic_stick.Prelude.Result.{ok}
use aippliance_magic_stick.Harness.Journal.Entry.{ResourceKind, JournalData, Operation, accepts}
use aippliance_magic_stick.Harness.Journal.Methods
use aippliance_magic_stick.Harness.Journal.Methods.{Ports, Cell, create}
use aippliance_magic_stick.Harness.Journal.Keeps.{
  requested-IsAccepted, owned-IsAccepted, rejected-IsAccepted, recovered_absent-IsAccepted,
  generation-IsAccepted, create-accepts,
}
use aippliance_magic_stick.Harness.Journal.Cleanup
use aippliance_magic_stick.Harness.Journal.Cleanup.{Only}
use aippliance_magic_stick.Harness.Journal.Cleanup.Safety.{cleanup-accepts}

-- The methods that change the journal, with their arguments. `model_generation` and
-- `app_generation` are the two kinds that `generation` is typed for.
pub data Call : Type 0 where
  requested rejected recovered_absent : ResourceKind → String → Call
  owned : ResourceKind → String → String → Option ℕ → Call
  model_generation app_generation : String → String → ℕ → ℕ → Call
  cleanup : Only → Call

module _ {W : Type 0} (ports : Ports W) where
  abbrev pub after_cleanup : Only → Cell W → Cell W
  after_cleanup only c =
      let l =
        (Cleanup.cleanup ports only
          (record { journal = c.journal; world = c.world; operation = Operation.guard })).1 in
      record { journal = l.journal; world = l.world }

  -- The state that a call leaves, whether it returned or threw.
  unfoldable pub perform : Call → Cell W → Cell W
  perform (Call.requested kind name) c = (Methods.requested ports kind name c).1
  perform (Call.rejected kind name) c = (Methods.rejected ports kind name c).1
  perform (Call.recovered_absent kind name) c = (Methods.recovered_absent ports kind name c).1
  perform (Call.owned kind name uid g) c = (Methods.owned ports kind name uid g c).1
  perform (Call.model_generation name uid p n) c =
      (Methods.generation ports ResourceKind.model name uid p n c).1
  perform (Call.app_generation name uid p n) c =
      (Methods.generation ports ResourceKind.app name uid p n c).1
  perform (Call.cleanup only) c = after_cleanup only c

  unfoldable pub run : List Call → Cell W → Cell W
  run [] c = c
  run (call ∷ calls) c = run calls (perform call c)

  perform-accepts :
      (target : String) (call : Call) (c : Cell W)
      → accepts target c.journal ≡ true
      → accepts target (perform call c).journal ≡ true
  unfolding perform
  perform-accepts target (Call.requested kind name) c h =
      requested-IsAccepted ports target kind name c h
  perform-accepts target (Call.rejected kind name) c h =
      rejected-IsAccepted ports target kind name c h
  perform-accepts target (Call.recovered_absent kind name) c h =
      recovered_absent-IsAccepted ports target kind name c h
  perform-accepts target (Call.owned kind name uid g) c h =
      owned-IsAccepted ports target kind name uid g c h
  perform-accepts target (Call.model_generation name uid p n) c h =
      generation-IsAccepted ports target ResourceKind.model name uid p n c refl h
  perform-accepts target (Call.app_generation name uid p n) c h =
      generation-IsAccepted ports target ResourceKind.app name uid p n c refl h
  perform-accepts target (Call.cleanup only) c h =
      cleanup-accepts ports target only
        (record { journal = c.journal; world = c.world; operation = Operation.guard }) h

  run_from-accepts :
      (target : String) (calls : List Call) (c : Cell W)
      → accepts target c.journal ≡ true
      → accepts target (run calls c).journal ≡ true
  unfolding run
  run_from-accepts target [] c h = h
  run_from-accepts target (call ∷ calls) c h =
      run_from-accepts target calls (perform call c) (perform-accepts target call c h)

-- A journal that was created for an appliance is accepted by `resume` for that appliance after any
-- calls of its methods, whatever the ports returned or threw in them.
pub run-accepts :
    {W : Type 0} (ports : Ports W) (run_id target : String) (calls : List Call) {j : JournalData}
    (w : W)
    → create run_id target ≡ ok j
    → accepts target (run ports calls (record { journal = j; world = w })).journal ≡ true
run-accepts ports run_id target calls {j} w h =
    run_from-accepts ports target calls (record { journal = j; world = w })
      (create-accepts run_id target h)

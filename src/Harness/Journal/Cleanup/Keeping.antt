-- ===== src/Harness/Journal/Cleanup/Keeping.antt =====
-- What `cleanup` (journal.ts) keeps: whatever its single steps keep.
use aippliance_magic_stick.Prelude.{
  ℕ, zero, suc, Bool, true, false, Option, none, some, List, [], ◌∷◌, String, ◌≡◌, refl,
  if◌then◌else◌,
}
use aippliance_magic_stick.Prelude.Result.{Action, pure, ◌>>=◌}
use aippliance_magic_stick.Prelude.Keeps.{
  Keeps, Keeps-pure, Keeps-throw, Keeps-bind, Keeps-then, Keeps-try_catch, Keeps-reading,
}
use aippliance_magic_stick.Harness.Errors.{ReasonCode, Thrown, require_safe}
use aippliance_magic_stick.Harness.Journal.Entry.{JournalEntry, Operation, CleanupFailure}
use aippliance_magic_stick.Harness.Journal.Methods.{Ports, Live, NoteState}
use aippliance_magic_stick.Harness.Journal.Cleanup.{
  Loop, entry_at, is_skipped, removed, blocked, removable_uid, port, at_operation, change_at, save,
  require_uid, remove_current, take_away, settle, block, visit_entry, visit_found, visit, visit_all,
  finish, cleanup, Only,
}

-- `Known` holds of every entry that the journal has while the loop runs.
module _ {W : Type 0} (ports : Ports W) (P : Loop W → Type 0) (Known : JournalEntry → Type 0) where
  open ports use {write, lookup, remove_if_uid, verify_removed, assert_held, note}

  -- The single steps of the `try`, and the removal of an entry by its recorded uid.
  pub record StepsKeep : Type 0 where
    pub looked_up : (e : JournalEntry) → Keeps P (port ports (lookup e))
    pub verified : (e : JournalEntry) → Keeps P (port ports (verify_removed e))
    pub guarded : Keeps P (port ports assert_held)
    pub noted :
        (e : JournalEntry) (o : Operation) → (s : NoteState) → Keeps P (port ports (note e o s))
    pub at : (o : Operation) → Keeps P (at_operation ports o)
    pub removing :
        (e : JournalEntry) (uid : String)
        → Known e
        → removable_uid e ≡ some uid
        → Keeps P (port ports (remove_if_uid e uid))

  module _ (k : StepsKeep) where
    require_safe-Keeps : (b : Bool) (code : ReasonCode) → Keeps P (require_safe {S = Loop W} b code)
    require_safe-Keeps b code = record { at = λ s p. p }

    remove_current-Keeps :
        (e : JournalEntry) (uid : String) (current : Option Live)
        → Known e
        → removable_uid e ≡ some uid
        → Keeps P (remove_current ports e uid current)
    unfolding remove_current
    remove_current-Keeps e uid none known r = Keeps-pure P tt
    remove_current-Keeps e uid (some current) known r = Keeps-then P _ _ (require_safe-Keeps _ _) (
        Keeps-then P _ _ (k.at Operation.guard) (
          Keeps-then P _ _ k.guarded (
            Keeps-then P _ _ (k.at Operation.remove) (
              Keeps-then P _ _ (k.noted e Operation.remove NoteState.running) (
                Keeps-then P _ _ (k.removing e uid known r)
                  (k.noted e Operation.remove NoteState.passed))))))

    -- The steps behind the check of the uid, by what the check finds.
    with_uid-Keeps :
        (e : JournalEntry) (f : String → Action Thrown (Loop W) (Unit {0}))
        → ((uid : String) → removable_uid e ≡ some uid → Keeps P (f uid))
        → (o : Option String) → removable_uid e ≡ o
        → Keeps P (require_uid ports o >>= f)
    with_uid-Keeps e f h none r = record { at = λ s p. p }
    with_uid-Keeps e f h (some uid) r = record { at = (h uid r).at }

    pub take_away-Keeps : (e : JournalEntry) → Known e → Keeps P (take_away ports e)
    unfolding take_away
    take_away-Keeps e known = Keeps-then P _ _ (k.noted e Operation.guard NoteState.running) (
        Keeps-then P _ _ k.guarded (
          Keeps-then P _ _ (k.at Operation.lookup) (
            Keeps-then P _ _ (k.noted e Operation.lookup NoteState.running) (
              with_uid-Keeps e _
                (λ uid r. Keeps-bind P _ _ (k.looked_up e) (λ current.
                  Keeps-then P _ _ (k.noted e Operation.lookup NoteState.passed) (
                    Keeps-then P _ _ (remove_current-Keeps e uid current known r) (
                      Keeps-then P _ _ (k.at Operation.verify) (
                        Keeps-then P _ _ (k.noted e Operation.verify NoteState.running)
                          (Keeps-bind P _ _ (k.verified e) (λ gone. require_safe-Keeps _ _)))))))
                (removable_uid e) refl))))

    module _ (settled : (i : ℕ) → Keeps P (change_at ports i removed))
        (stopped : (i : ℕ) (f : CleanupFailure) → Keeps P (change_at ports i (blocked f)))
        (saved : Keeps P (save ports))
        (known : (l : Loop W) (i : ℕ) (e : JournalEntry)
          → P l
          → entry_at i l.journal.entries ≡ some e
          → Known e) where
      settle-Keeps : (i : ℕ) (e : JournalEntry) → Keeps P (settle ports i e)
      unfolding settle
      settle-Keeps i e = Keeps-then P _ _ (settled i) (
          Keeps-then P _ _ (k.at Operation.persist)
            (Keeps-then P _ _ saved (k.noted e Operation.persist NoteState.completed)))

      block-Keeps : (i : ℕ) (e : JournalEntry) (t : Thrown) → Keeps P (block ports i e t)
      unfolding block
      block-Keeps i e t = Keeps-reading P _ (λ l. Keeps-then P _ _ (stopped i _) (
          Keeps-bind P _ _
            (Keeps-try_catch P _ _ (Keeps-then P _ _ saved (Keeps-pure P _))
              (λ t'. Keeps-then P _ _ (stopped i _) (Keeps-pure P _)))
            (λ failure.
              Keeps-then P _ _ (k.noted e l.operation NoteState.failed) (Keeps-pure P failure))))

      visit_entry-Keeps :
          (i : ℕ) (e : JournalEntry) (fs : List CleanupFailure)
          → Known e
          → Keeps P (visit_entry ports i e fs)
      unfolding visit_entry
      visit_entry-Keeps i e fs here = Keeps-then P _ _ (k.at Operation.guard) (
          Keeps-try_catch P _ _
            (Keeps-then P _ _ (take_away-Keeps e here)
              (Keeps-then P _ _ (settle-Keeps i e) (Keeps-pure P fs)))
            (λ t. Keeps-bind P _ _ (block-Keeps i e t) (λ f. Keeps-pure P _)))

      unskipped-Keeps :
          (b : Bool) (i : ℕ) (e : JournalEntry) (fs : List CleanupFailure)
          → Known e
          → Keeps P (if b then pure fs else visit_entry ports i e fs)
      unskipped-Keeps true i e fs here = Keeps-pure P fs
      unskipped-Keeps false i e fs here = visit_entry-Keeps i e fs here

      visit_found-Keeps :
          (only : Only) (i : ℕ) (fs : List CleanupFailure) (found : Option JournalEntry)
          → ((e : JournalEntry) → found ≡ some e → Known e)
          → Keeps P (visit_found ports only i fs found)
      visit_found-Keeps only i fs none here = Keeps-pure P fs
      visit_found-Keeps only i fs (some e) here =
          unskipped-Keeps (is_skipped only e) i e fs (here e refl)

      visit_all-Keeps :
          (only : Only) (n : ℕ) (fs : List CleanupFailure) → Keeps P (visit_all ports only n fs)
      unfolding visit_all visit
      visit_all-Keeps only zero fs = Keeps-pure P fs
      visit_all-Keeps only (suc i) fs =
          Keeps-bind P _ _
            (record {
              at = λ l p.
                  (visit_found-Keeps only i fs (entry_at i l.journal.entries)
                      (λ e. known l i e p)).at
                    l p;
            })
            (λ more. visit_all-Keeps only i more)

      finish-Keeps : (fs : List CleanupFailure) → Keeps P (finish ports fs)
      finish-Keeps [] = Keeps-pure P tt
      finish-Keeps (f ∷ fs) = Keeps-throw P _

      pub cleanup-Keeps : (only : Only) → Keeps P (cleanup ports only)
      unfolding cleanup
      cleanup-Keeps only = Keeps-reading P _ (λ l.
          Keeps-then P _ _ (require_safe-Keeps _ _)
            (Keeps-bind P _ _ (visit_all-Keeps only _ []) finish-Keeps))

-- ===== src/Harness/Journal/Cleanup/Settled.antt =====
-- A cleanup that returns has removed every entry (journal.ts).
use aippliance_magic_stick.Prelude.{
  ℕ, zero, suc, true, Option, none, some, List, [], ◌∷◌, ◌++◌, length, ◌≡◌, refl, ap, arith,
  Bool-cases, inl, inr,
}
use aippliance_magic_stick.Prelude.Result.{pure, ◌>>◌}
use aippliance_magic_stick.Prelude.Keeps.{
  Returns, Returns-continue, Returns-handle, Returns-of_kept,
}
use aippliance_magic_stick.Harness.Journal.Entry.{
  EntryState, JournalEntry, JournalData, CleanupFailure, Operation, is_state,
}
use aippliance_magic_stick.Harness.Journal.Methods.{Ports, recovery_plan}
use aippliance_magic_stick.Harness.Journal.Cleanup.{
  Loop, entry_at, set_at, removed, take_away, settle, block, visit_entry, visit_found, visit,
  visit_all, finish, cleanup,
}
use aippliance_magic_stick.Harness.Journal.Cleanup.Keeping.{StepsKeep, take_away-Keeps}

-- The entries from a position on are all removed.
abbrev IsSettled : ℕ → List JournalEntry → Type 0
IsSettled i [] = Unit
IsSettled zero (item ∷ items) = (item.state ≡ EntryState.removed) × IsSettled zero items
IsSettled (suc i) (item ∷ items) = IsSettled i items

IsSettled-end : (items : List JournalEntry) → IsSettled (length items) items
IsSettled-end [] = tt
IsSettled-end (item ∷ items) = IsSettled-end items

IsSettled-missing :
    (i : ℕ) (items : List JournalEntry) → entry_at i items ≡ none → IsSettled i items
IsSettled-missing zero [] h = tt
IsSettled-missing (suc i) [] h = tt
IsSettled-missing zero (item ∷ items) h = cc
IsSettled-missing (suc i) (item ∷ items) h = IsSettled-missing i items h

IsSettled-found :
    (i : ℕ) (items : List JournalEntry) (e : JournalEntry)
    → entry_at i items ≡ some e
    → is_state e.state EntryState.removed ≡ true
    → IsSettled (suc i) items
    → IsSettled i items
IsSettled-found zero [] e h r k = cc
IsSettled-found (suc i) [] e h r k = cc
IsSettled-found zero (item ∷ []) e h r k = (ground (arith, h, r), tt)
IsSettled-found zero (item ∷ next ∷ items) e h r k = (ground (arith, h, r), k)
IsSettled-found (suc i) (item ∷ items) e h r k = IsSettled-found i items e h r k

IsSettled-set_at :
    (i : ℕ) (items : List JournalEntry)
    → IsSettled (suc i) items
    → IsSettled i (set_at i removed items)
IsSettled-set_at zero [] k = tt
IsSettled-set_at (suc i) [] k = tt
IsSettled-set_at zero (item ∷ []) k = (refl, tt)
IsSettled-set_at zero (item ∷ next ∷ items) k = (refl, k)
IsSettled-set_at (suc i) (item ∷ items) k = IsSettled-set_at i items k

plan_empty : (items : List JournalEntry) → IsSettled zero items → recovery_plan items ≡ []
unfolding recovery_plan
plan_empty [] k = refl
plan_empty (item ∷ items) k = ground (arith, k, plan_empty items k.1)

-- Either a failure was met, or the entries from a position on are removed.
abbrev Progress : {W : Type 0} → ℕ → List CleanupFailure → Loop W → Type 0
Progress i [] l = IsSettled i l.journal.entries
Progress i (f ∷ fs) l = Unit

Progress-append :
    {W : Type 0} (i : ℕ) (fs : List CleanupFailure) (f : CleanupFailure) (l : Loop W)
    → Progress i (fs ++ f ∷ []) l
Progress-append i [] f l = tt
Progress-append i (g ∷ fs) f l = tt

module _ {W : Type 0} (ports : Ports W) where
  journal-StepsKeep : (j : JournalData) → StepsKeep ports (λ l. l.journal ≡ j) (λ e. Unit)
  journal-StepsKeep j = record {
    looked_up = λ e. record { at = λ l h. h };
    verified = λ e. record { at = λ l h. h };
    guarded = record { at = λ l h. h };
    noted = λ e o s. record { at = λ l h. h };
    at = λ o. record { at = λ l h. h };
    removing = λ e uid k r. record { at = λ l h. h };
  }

  settle_lem :
      (i : ℕ) (e : JournalEntry) (fs : List CleanupFailure) (l : Loop W)
      → Progress (suc i) fs l
      → Returns (Progress i) ((settle ports i e >> pure fs) l)
  unfolding settle
  settle_lem i e [] l p =
      Returns-continue (λ _. Progress i []) (Progress i) _ (settle ports i e l)
        (Returns-of_kept (Progress i []) (settle ports i e l)
          (kept i e l (IsSettled-set_at i l.journal.entries p)))
        (λ _ s h. h)
    where
      kept :
          (i : ℕ) (e : JournalEntry) (l : Loop W)
          → IsSettled i (set_at i removed l.journal.entries)
          → IsSettled i (settle ports i e l).1.journal.entries
      kept i e l h = ground (arith, h)
  settle_lem i e (f ∷ fs) l p =
      Returns-continue (λ _ _. Unit {0}) (Progress i) _ (settle ports i e l)
        (Returns-of_kept (λ _. Unit {0}) (settle ports i e l) tt) (λ _ s h. tt)

  Progress-of_same :
      (i : ℕ) (fs : List CleanupFailure) (l s : Loop W)
      → Progress (suc i) fs l
      → s.journal ≡ l.journal
      → Progress (suc i) fs s
  Progress-of_same i [] l s p h = rw (ap (λ j. j.entries) h) p
  Progress-of_same i (f ∷ fs) l s p h = tt

  already :
      (i : ℕ) (fs : List CleanupFailure) (l : Loop W) (e : JournalEntry)
      → entry_at i l.journal.entries ≡ some e
      → is_state e.state EntryState.removed ≡ true
      → Progress (suc i) fs l
      → Progress i fs l
  already i [] l e h r p = IsSettled-found i l.journal.entries e h r p
  already i (f ∷ fs) l e h r p = tt

  visit_entry_lem :
      (i : ℕ) (e : JournalEntry) (fs : List CleanupFailure) (l : Loop W)
      → Progress (suc i) fs l
      → Returns (Progress i) (visit_entry ports i e fs l)
  unfolding visit_entry
  visit_entry_lem i e fs l p =
      let start = record l { operation = Operation.guard } in
      Returns-handle (Progress i) _ ((take_away ports e >> (settle ports i e >> pure fs)) start)
        (Returns-continue (λ _ s. s.journal ≡ l.journal) (Progress i) _ (take_away ports e start)
          (Returns-of_kept (λ s. s.journal ≡ l.journal) (take_away ports e start)
            ((take_away-Keeps ports (λ s. s.journal ≡ l.journal) (λ e. Unit)
                (journal-StepsKeep l.journal) e tt).at
              start refl))
          (λ _ s h. settle_lem i e fs s (Progress-of_same i fs l s p h)))
        (λ t s.
          Returns-continue (λ _ _. Unit {0}) (Progress i) _ (block ports i e t s)
            (Returns-of_kept (λ _. Unit {0}) (block ports i e t s) tt)
            (λ f s' h. Progress-append i fs f s'))

  visit_found_lem :
      (i : ℕ) (fs : List CleanupFailure) (l : Loop W) (found : Option JournalEntry)
      → entry_at i l.journal.entries ≡ found
      → Progress (suc i) fs l
      → Returns (Progress i) (visit_found ports none i fs found l)
  visit_found_lem i [] l none h p = IsSettled-missing i l.journal.entries h
  visit_found_lem i (f ∷ fs) l none h p = tt
  visit_found_lem i fs l (some e) h p = elim (Bool-cases (is_state e.state EntryState.removed)) [
    | inl r ↦ rw r (already i fs l e h r p)
    | inr r ↦ rw r (visit_entry_lem i e fs l p)
  ]

  visit_all_lem :
      (n : ℕ) (fs : List CleanupFailure) (l : Loop W)
      → Progress n fs l
      → Returns (Progress zero) (visit_all ports none n fs l)
  unfolding visit_all visit
  visit_all_lem zero fs l p = p
  visit_all_lem (suc i) fs l p =
      Returns-continue (Progress i) (Progress zero) _
        (visit_found ports none i fs (entry_at i l.journal.entries) l)
        (visit_found_lem i fs l (entry_at i l.journal.entries) refl p)
        (λ more s q. visit_all_lem i more s q)

  finish_lem :
      (fs : List CleanupFailure) (l : Loop W)
      → Progress zero fs l
      → Returns (λ _ s. recovery_plan s.journal.entries ≡ []) (finish ports fs l)
  finish_lem [] l p = plan_empty l.journal.entries p
  finish_lem (f ∷ fs) l p = tt

  -- If a cleanup of all entries returns, the recovery plan is empty: every entry is removed. So a
  -- cleanup in which one entry could not be removed throws.
  pub cleanup_settles :
      (l : Loop W) → Returns (λ _ s. recovery_plan s.journal.entries ≡ []) (cleanup ports none l)
  unfolding cleanup
  cleanup_settles l =
      Returns-continue (Progress zero) (λ _ s. recovery_plan s.journal.entries ≡ []) _
        (visit_all ports none (length l.journal.entries) [] l)
        (visit_all_lem (length l.journal.entries) [] l (IsSettled-end l.journal.entries)) finish_lem

-- ===== src/Harness/Sharing/GivenBack.antt =====
-- What `restore` of BorrowedSharing (borrowed-sharing.ts) has done when it returns, and when it
-- cannot return.
use aippliance_magic_stick.Prelude.{
  Bool, true, false, Option, none, some, ◌≡◌, refl, sym, ap, ◌∙◌, arith, ◌&&◌,
}
use aippliance_magic_stick.Prelude.Keeps.{Returns, Returns-continue, Returns-of_kept}
use aippliance_magic_stick.Prelude.Text.{same_text}
use aippliance_magic_stick.Harness.Errors.{ReasonCode}
use aippliance_magic_stick.Harness.Errors.Requires.{Returns-require}
use aippliance_magic_stick.Harness.Sharing.Spec.{Provider, Spec, Json, same_spec}
use aippliance_magic_stick.Harness.Sharing.Same.{same_spec_iff}
use aippliance_magic_stick.Harness.Sharing.Entry.{EntryState, BorrowedEntry, is_state}
use aippliance_magic_stick.Harness.Sharing.Methods.{
  SharingSnapshot, to_state, changed, Ports, Cell, persist, current, same_object, spec_is,
  number_is,
}
use aippliance_magic_stick.Harness.Sharing.Wait.{Timing}
use aippliance_magic_stick.Harness.Sharing.Restore.{
  change_back, defaults_if, set_restored, prove_original, undo, give_back,
}
use aippliance_magic_stick.Harness.Sharing.Keeps.{Keeps-change_back, Keeps-defaults_if}
use aippliance_magic_stick.Harness.Sharing.Restored.{
  entry_at, HasOriginal, Settles, Sees, IsStable-HasOriginal, find-update_same, current_lem,
}

-- A spec that equals both the last and the original one joins them.
spec_joins :
    (o : Option Spec) (a b : Spec) → spec_is o a ≡ true → spec_is o b ≡ true → same_spec a b ≡ true
spec_joins none a b h k = absurd (ground (arith, h))
spec_joins (some s) a b h k =
    (same_spec_iff a b).1 (sym ((same_spec_iff s a).0 h) ∙ (same_spec_iff s b).0 k)

and_last : (a b c : Bool) → (a && b && c) ≡ true → c ≡ true
and_last a b c h = ground arith

same_object-spec :
    {W : Type 0} (js : Json) (ports : Ports W) (e : BorrowedEntry) (value : SharingSnapshot)
    → same_object js ports e value ≡ true
    → spec_is value.spec e.last_spec ≡ true
same_object-spec js ports e value h =
    and_last (same_text value.uid (some e.uid)) (number_is value.generation e.generation)
      (spec_is value.spec e.last_spec) h

module _ {W : Type 0} (js : Json) (ports : Ports W) (timing : Timing W) where
  abbrev pub SettlesHere : Provider → Unit {0} → Cell W → Type 0
  SettlesHere p u c = Settles p c.sharing

  set_restored-Settles :
      (p : Provider) (e : BorrowedEntry) (c : Cell W)
      → entry_at p c.sharing ≡ some e
      → same_spec e.last_spec e.original_spec ≡ true
      → Returns (SettlesHere p) (set_restored js ports timing p c)
  unfolding persist
  set_restored-Settles p e c h k =
      Returns-of_kept (λ (s : Cell W). Settles p s.sharing) (set_restored js ports timing p c)
        (
          changed (to_state EntryState.restored) e,
          find-update_same p (to_state EntryState.restored) c.sharing.entries h,
          (refl, k),
        )

  prove_original-Settles :
      (e : BorrowedEntry) (c : Cell W)
      → HasOriginal e.provider e.original_spec c.sharing
      → Returns (SettlesHere e.provider) (prove_original js ports timing e c)
  unfolding prove_original
  prove_original-Settles e c (found, h, same) =
      Returns-continue (Sees js ports c.sharing found) (SettlesHere e.provider) _
        (current js ports e.provider c) (current_lem js ports e.provider found c h)
        (λ value s seen.
          Returns-require (SettlesHere e.provider) (spec_is value.spec e.original_spec)
            ReasonCode.cleanup (set_restored js ports timing e.provider) s
            (λ original.
              set_restored-Settles e.provider found s (ap (entry_at e.provider) seen.0 ∙ h) (
                rw same (
                  spec_joins value.spec found.last_spec e.original_spec
                    (same_object-spec js ports found value seen.1) original))))

  undo-Settles :
      (e : BorrowedEntry) (same : Bool) (c : Cell W)
      → entry_at e.provider c.sharing ≡ some e
      → same_spec e.last_spec e.original_spec ≡ same
      → Returns (SettlesHere e.provider) (undo js ports timing e same c)
  undo-Settles e true c h k =
      Returns-continue (Sees js ports c.sharing e) (SettlesHere e.provider) _
        (current js ports e.provider c) (current_lem js ports e.provider e c h)
        (λ value s seen.
          set_restored-Settles e.provider e s (ap (entry_at e.provider) seen.0 ∙ h) k)
  undo-Settles e false c h k =
      let Still = HasOriginal e.provider e.original_spec in
      let stable = IsStable-HasOriginal e.provider e.original_spec in
      Returns-continue (λ _ (s : Cell W). Still s.sharing) (SettlesHere e.provider) _
        (change_back js ports timing 2 e c)
        (Returns-of_kept (λ (s : Cell W). Still s.sharing) _
          ((Keeps-change_back js ports timing Still e stable 2).at c (e, h, refl)))
        (λ u s still.
          Returns-continue (λ _ (t : Cell W). Still t.sharing) (SettlesHere e.provider) _
            (defaults_if js ports timing e.original_defaults e s)
            (Returns-of_kept (λ (t : Cell W). Still t.sharing) _
              ((Keeps-defaults_if js ports timing Still e stable e.original_defaults).at s still))
            (λ v t kept. prove_original-Settles e t kept))

  pub give_back-Settles :
      (e : BorrowedEntry) (c : Cell W)
      → entry_at e.provider c.sharing ≡ some e
      → Returns (SettlesHere e.provider) (give_back js ports timing e c)
  unfolding give_back
  give_back-Settles e c h =
      Returns-require (SettlesHere e.provider) (is_state e.state EntryState.borrowed)
        ReasonCode.conflict _ c
        (λ _. undo-Settles e (same_spec e.last_spec e.original_spec) _ h refl)

-- ===== src/Harness/Journal/Cleanup/Safety.antt =====
-- What `cleanup` (journal.ts) does to the outside world and to the journal's own checks.
use aippliance_magic_stick.Prelude.{
  ℕ, zero, suc, Bool, true, some, All, ◌⊎◌, inl, inr, subst, List, [], ◌∷◌, String, ◌&&◌, any, ◌≡◌,
  refl, arith,
}
use aippliance_magic_stick.Prelude.Keeps.{Keeps}
use aippliance_magic_stick.Harness.Journal.Entry.{
  JournalEntry, CleanupFailure, JournalData, Operation, is_named, is_valid_entry, valid_from,
  accepts,
}
use aippliance_magic_stick.Harness.Journal.Methods.{Ports, NoteState}
use aippliance_magic_stick.Harness.Journal.Valid.{valid_from-seen, absent-valid}
use aippliance_magic_stick.Harness.Journal.Cleanup.{
  Loop, Only, entry_at, set_at, removed, blocked, removable_uid, change_at, cleanup,
}
use aippliance_magic_stick.Harness.Journal.Cleanup.Keeping.{StepsKeep, cleanup-Keeps}

blocked-valid :
    (prefix : String) (f : CleanupFailure) (item : JournalEntry)
    → is_valid_entry prefix item ≡ true
    → is_valid_entry prefix (blocked f item) ≡ true
unfolding is_valid_entry
blocked-valid prefix f item v = ground arith

module _ (prefix : String) (f : JournalEntry → JournalEntry)
    (fk : (item : JournalEntry) → (f item).kind ≡ item.kind)
    (fn : (item : JournalEntry) → (f item).name ≡ item.name)
    (fv : (item : JournalEntry)
      → is_valid_entry prefix item ≡ true
      → is_valid_entry prefix (f item) ≡ true) where
  set_seen :
      (item : JournalEntry) (seen items : List JournalEntry)
      → valid_from prefix (f item ∷ seen) items ≡ valid_from prefix (item ∷ seen) items
  unfolding is_named
  set_seen item seen items =
      valid_from-seen prefix (f item ∷ seen) (item ∷ seen) items (λ k n. rw (fk item, fn item))

  named_seen :
      (item : JournalEntry) (seen : List JournalEntry)
      → any (is_named (f item).kind (f item).name) seen ≡ any (is_named item.kind item.name) seen
  named_seen item seen = rw (fk item, fn item)

  set_head : (v v' s r : Bool) → (v ≡ true → v' ≡ true) → v && s && r ≡ true → v' && s && r ≡ true
  set_head v v' s r k h = ground arith

  valid_from-set_at :
      (i : ℕ) (seen items : List JournalEntry)
      → valid_from prefix seen items ≡ true
      → valid_from prefix seen (set_at i f items) ≡ true
  unfolding valid_from
  valid_from-set_at zero seen [] h = refl
  valid_from-set_at (suc i) seen [] h = refl
  valid_from-set_at zero seen (item ∷ items) h =
      rw (set_seen item seen items) (rw (named_seen item seen) (set_head _ _ _ _ (fv item) h))
  valid_from-set_at (suc i) seen (item ∷ items) h =
      ground (arith, valid_from-set_at i (item ∷ seen) items)

-- Some entry of the list has the kind, the name and the uid of this one.
abbrev pub IsListed : JournalEntry → List JournalEntry → Type 0
IsListed e [] = ⊥
IsListed e (x ∷ xs) = ((x.kind ≡ e.kind) × (x.name ≡ e.name) × (x.uid ≡ e.uid)) ⊎ IsListed e xs

All-IsListed :
    (xs items : List JournalEntry)
    → ((e : JournalEntry) → IsListed e xs → IsListed e items)
    → All (λ e. IsListed e items) xs
All-IsListed [] items k = tt
All-IsListed (x ∷ xs) items k =
    (k x (inl (refl, refl, refl)), All-IsListed xs items (λ e h. k e (inr h)))

module _ (Known : JournalEntry → Type 0) where
  All-set_at :
      (f : JournalEntry → JournalEntry) (i : ℕ) (items : List JournalEntry)
      → ((e : JournalEntry) → Known e → Known (f e))
      → All Known items
      → All Known (set_at i f items)
  All-set_at f zero [] k h = tt
  All-set_at f (suc i) [] k h = tt
  All-set_at f zero (x ∷ xs) k h = (k x h.0, h.1)
  All-set_at f (suc i) (x ∷ xs) k h = (h.0, All-set_at f i xs k h.1)

  All-entry_at :
      (i : ℕ) (items : List JournalEntry) {e : JournalEntry}
      → All Known items
      → entry_at i items ≡ some e
      → Known e
  All-entry_at zero [] h n = absurd (ground (arith, n))
  All-entry_at (suc i) [] h n = absurd (ground (arith, n))
  All-entry_at zero (x ∷ xs) {e} h n = let same : x ≡ e = cc in subst Known same h.0
  All-entry_at (suc i) (x ∷ xs) h n = All-entry_at i xs h.1 n

module _ {W : Type 0} (ports : Ports W) where
  accepts-set_at :
      (target : String) (i : ℕ) (f : JournalEntry → JournalEntry)
      → ((item : JournalEntry) → (f item).kind ≡ item.kind)
      → ((item : JournalEntry) → (f item).name ≡ item.name)
      → ((prefix : String) (item : JournalEntry)
          → is_valid_entry prefix item ≡ true
          → is_valid_entry prefix (f item) ≡ true)
      → Keeps (λ (l : Loop W). accepts target l.journal ≡ true) (change_at ports i f)
  unfolding accepts
  accepts-set_at target i f fk fn fv = record {
    at = λ l h. ground (
      arith,
      h,
      valid_from-set_at l.journal.prefix f fk fn (fv l.journal.prefix) i [] l.journal.entries,
    );
  }

  accepts-StepsKeep :
      (target : String) → StepsKeep ports (λ l. accepts target l.journal ≡ true) (λ e. Unit)
  accepts-StepsKeep target = record {
    looked_up = λ e. record { at = λ l h. h };
    verified = λ e. record { at = λ l h. h };
    guarded = record { at = λ l h. h };
    noted = λ e o s. record { at = λ l h. h };
    at = λ o. record { at = λ l h. h };
    removing = λ e uid k r. record { at = λ l h. h };
  }

  -- A cleanup, whatever fails in it, leaves a journal that `resume` accepts if it began with one.
  pub cleanup-accepts :
      (target : String) (only : Only) (l : Loop W)
      → accepts target l.journal ≡ true
      → accepts target (cleanup ports only l).1.journal ≡ true
  cleanup-accepts target only l =
      (cleanup-Keeps ports (λ s. accepts target s.journal ≡ true) (λ e. Unit)
          (accepts-StepsKeep target)
          (λ i. accepts-set_at target i removed (λ _. refl) (λ _. refl) absent-valid)
          (λ i f.
            accepts-set_at target i (blocked f) (λ _. refl) (λ _. refl)
              (λ prefix. blocked-valid prefix f))
          (record { at = λ s h. h }) (λ s i e h found. tt) only).at
        l

  -- What holds of the world and is kept by every request but a removal, and by the removal of an
  -- owned or blocked entry under the uid that the entry records, is kept by a cleanup. The entry has
  -- its kind, its name and its uid from an entry that the journal had when the cleanup began.
  pub cleanup-world :
      (Q : W → Type 0) (only : Only) (l : Loop W)
      → ((e : JournalEntry) → Keeps Q (ports.lookup e))
      → ((e : JournalEntry) → Keeps Q (ports.verify_removed e))
      → Keeps Q ports.assert_held
      → ((e : JournalEntry) (o : Operation) (s : NoteState) → Keeps Q (ports.note e o s))
      → ((j : JournalData) → Keeps Q (ports.write j))
      → ((e : JournalEntry) (uid : String)
          → IsListed e l.journal.entries
          → removable_uid e ≡ some uid
          → Keeps Q (ports.remove_if_uid e uid))
      → Q l.world
      → Q (cleanup ports only l).1.world
  cleanup-world Q only l looked_up verified guarded noted written removing q =
      let Known = λ (e : JournalEntry). IsListed e l.journal.entries in
      ((cleanup-Keeps ports (λ s. Q s.world × All Known s.journal.entries) Known
          (record {
            looked_up = λ e. record { at = λ s h. ((looked_up e).at s.world h.0, h.1) };
            verified = λ e. record { at = λ s h. ((verified e).at s.world h.0, h.1) };
            guarded = record { at = λ s h. (guarded.at s.world h.0, h.1) };
            noted = λ e o n. record { at = λ s h. ((noted e o n).at s.world h.0, h.1) };
            at = λ o. record { at = λ s h. h };
            removing =
                λ e uid k r. record { at = λ s h. ((removing e uid k r).at s.world h.0, h.1) };
          })
          (λ i. record {
            at = λ s h. (h.0, All-set_at Known removed i s.journal.entries (λ e k. k) h.1);
          })
          (λ i f. record {
            at = λ s h. (h.0, All-set_at Known (blocked f) i s.journal.entries (λ e k. k) h.1);
          })
          (record { at = λ s h. ((written s.journal).at s.world h.0, h.1) })
          (λ s i e h found. All-entry_at Known i s.journal.entries h.1 found) only).at
        l (q, All-IsListed l.journal.entries l.journal.entries (λ e k. k))).0

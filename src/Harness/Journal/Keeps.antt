-- ===== src/Harness/Journal/Keeps.antt =====
-- Every method of the journal (journal.ts) leaves data that `resume` accepts.
use aippliance_magic_stick.Prelude.{
  ℕ, Bool, true, Option, [], String, not, ◌&&◌, find, any, ◌≡◌, refl, arith, Bool-cases, inl, inr,
}
use aippliance_magic_stick.Prelude.Result.{ok}
use aippliance_magic_stick.Prelude.Text.{str_eq_refl}
use aippliance_magic_stick.Harness.Journal.Entry.{
  ResourceKind, JournalEntry, JournalData, owned_journal_name, is_named, is_valid_entry, valid_from,
  accepts, has_generation, run_prefix,
}
use aippliance_magic_stick.Harness.Journal.Methods.{
  Ports, Cell, entry_is, may_own, may_reject, may_be_absent, may_advance, to_owned, to_removed,
  to_absent, to_generation, new_entry, change, requested, owned, rejected, recovered_absent,
  generation, create,
}
use aippliance_magic_stick.Harness.Journal.Valid.{
  owned-valid, removed-valid, absent-valid, generation-valid, valid_from-append, valid_from-update,
  named_kind, new_entry-valid,
}

-- The journal file is one that `resume` accepts for this appliance.
abbrev pub IsAccepted : {W : Type 0} → String → Cell W → Type 0
IsAccepted target c = accepts target c.journal ≡ true

pub create-accepts :
    (run_id target : String) {j : JournalData}
    → create run_id target ≡ ok j
    → accepts target j ≡ true
unfolding create accepts valid_from
create-accepts run_id target {j} h =
    ground (arith, str_eq_refl target, str_eq_refl (run_prefix run_id))

module _ {W : Type 0} (ports : Ports W) (target : String) where
  change-IsAccepted :
      (kind : ResourceKind) (name : String) (test : JournalEntry → Bool)
      (f : JournalEntry → JournalEntry)
      → ((item : JournalEntry) → (f item).kind ≡ item.kind)
      → ((item : JournalEntry) → (f item).name ≡ item.name)
      → ((prefix : String) (item : JournalEntry)
          → is_named kind name item ≡ true
          → test item ≡ true
          → is_valid_entry prefix item ≡ true
          → is_valid_entry prefix (f item) ≡ true)
      → (c : Cell W) → IsAccepted target c
      → IsAccepted target (change ports kind name test f c).1
  unfolding accepts
  change-IsAccepted kind name test f fk fn fv c h =
      elim (Bool-cases (entry_is test (find (is_named kind name) c.journal.entries))) [
        | inl found ↦ rw found (
            ground (
              arith,
              valid_from-update c.journal.prefix kind name test f fk fn (fv c.journal.prefix) []
                  c.journal.entries found,
            ))
        | inr missing ↦ rw missing h
      ]

  pub owned-IsAccepted :
      (kind : ResourceKind) (name uid : String) (g : Option ℕ) (c : Cell W)
      → IsAccepted target c
      → IsAccepted target (owned ports kind name uid g c).1
  unfolding owned
  owned-IsAccepted kind name uid g =
      change-IsAccepted kind name (may_own uid g kind) (to_owned uid g) (λ _. refl) (λ _. refl)
        (λ prefix item named m.
          owned-valid prefix uid g item (rw (named_kind kind name item named) m))

  pub rejected-IsAccepted :
      (kind : ResourceKind) (name : String) (c : Cell W)
      → IsAccepted target c
      → IsAccepted target (rejected ports kind name c).1
  unfolding rejected
  rejected-IsAccepted kind name =
      change-IsAccepted kind name may_reject to_removed (λ _. refl) (λ _. refl)
        (λ prefix item _. removed-valid prefix item)

  pub recovered_absent-IsAccepted :
      (kind : ResourceKind) (name : String) (c : Cell W)
      → IsAccepted target c
      → IsAccepted target (recovered_absent ports kind name c).1
  unfolding recovered_absent
  recovered_absent-IsAccepted kind name =
      change-IsAccepted kind name may_be_absent to_absent (λ _. refl) (λ _. refl)
        (λ prefix item _ _. absent-valid prefix item)

  pub generation-IsAccepted :
      (kind : ResourceKind) (name uid : String) (p n : ℕ) (c : Cell W)
      → has_generation kind ≡ true
      → IsAccepted target c
      → IsAccepted target (generation ports kind name uid p n c).1
  unfolding generation
  generation-IsAccepted kind name uid p n c k =
      change-IsAccepted kind name (may_advance uid p n) (to_generation n) (λ _. refl) (λ _. refl)
        (λ prefix item named.
          generation-valid prefix uid p n item (rw (named_kind kind name item named) k))
        c

  pub requested-IsAccepted :
      (kind : ResourceKind) (name : String) (c : Cell W)
      → IsAccepted target c
      → IsAccepted target (requested ports kind name c).1
  unfolding requested accepts
  requested-IsAccepted kind name c h =
      elim (Bool-cases (
        owned_journal_name kind name c.journal.prefix
        && not (any (is_named kind name) c.journal.entries))) [
          | inl fresh ↦ rw fresh (
              ground (
                arith,
                valid_from-append c.journal.prefix (new_entry kind name) [] c.journal.entries,
                new_entry-valid c.journal.prefix kind name,
              ))
          | inr refused ↦ rw refused h
        ]

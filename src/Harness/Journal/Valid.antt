-- ===== src/Harness/Journal/Valid.antt =====
-- How the checks of `resume` (journal.ts) fare under the changes that the methods make.
use aippliance_magic_stick.Prelude.{
  ℕ, Bool, true, false, Option, List, [], ◌∷◌, ◌++◌, String, ◌&&◌, ◌||◌, find, any, ◌≡◌, refl, ap,
  arith, Bool-cases, inl, inr,
}
use aippliance_magic_stick.Prelude.Text.{str_eq, str_eq_iff}
use aippliance_magic_stick.Harness.Journal.Entry.{
  ResourceKind, JournalEntry, owned_journal_name, is_named, same_kind, is_valid_entry, valid_from,
  has_generation,
}
use aippliance_magic_stick.Harness.Journal.Methods.{
  update, entry_is, may_own, may_reject, may_advance, to_owned, to_removed, to_absent,
  to_generation, new_entry,
}

same_kind_sym : (a b : ResourceKind) → same_kind a b ≡ same_kind b a
same_kind_sym a b = ground arith

str_eq_sym : (a b : String) → str_eq a b ≡ str_eq b a
str_eq_sym a b = ground (arith, str_eq_iff a b, str_eq_iff b a)

is_named_sym : (a b : JournalEntry) → is_named a.kind a.name b ≡ is_named b.kind b.name a
unfolding is_named
is_named_sym a b = rw (same_kind_sym b.kind a.kind, str_eq_sym b.name a.name)

-- Each change keeps the entry's key and its validity, where its guard allows it.
pub owned-valid :
    (prefix uid : String) (g : Option ℕ) (item : JournalEntry)
    → may_own uid g item.kind item ≡ true
    → is_valid_entry prefix item ≡ true
    → is_valid_entry prefix (to_owned uid g item) ≡ true
unfolding is_valid_entry
owned-valid prefix uid g item m v = ground arith

pub removed-valid :
    (prefix : String) (item : JournalEntry)
    → may_reject item ≡ true
    → is_valid_entry prefix item ≡ true
    → is_valid_entry prefix (to_removed item) ≡ true
unfolding is_valid_entry
removed-valid prefix item m v = ground arith

pub absent-valid :
    (prefix : String) (item : JournalEntry)
    → is_valid_entry prefix item ≡ true
    → is_valid_entry prefix (to_absent item) ≡ true
unfolding is_valid_entry
absent-valid prefix item v = ground arith

pub generation-valid :
    (prefix uid : String) (p n : ℕ) (item : JournalEntry)
    → has_generation item.kind ≡ true
    → may_advance uid p n item ≡ true
    → is_valid_entry prefix item ≡ true
    → is_valid_entry prefix (to_generation n item) ≡ true
unfolding is_valid_entry
generation-valid prefix uid p n item k m v = ground arith

pub new_entry-valid :
    (prefix : String) (kind : ResourceKind) (name : String)
    → owned_journal_name kind name prefix ≡ true
    → is_valid_entry prefix (new_entry kind name) ≡ true
unfolding is_valid_entry
new_entry-valid prefix kind name h = ground arith

pub named_kind :
    (kind : ResourceKind) (name : String) (item : JournalEntry)
    → is_named kind name item ≡ true
    → item.kind ≡ kind
unfolding is_named
named_kind kind name item h = ground arith

named-of_key :
    (k k' : ResourceKind) (n n' : String) (a : JournalEntry)
    → k ≡ k'
    → n ≡ n'
    → is_named k n a ≡ is_named k' n' a
named-of_key k k' n n' a p q = rw (p, q)

-- Only the keys of the entries seen before matter.
pub valid_from-seen :
    (prefix : String) (s t items : List JournalEntry)
    → ((k : ResourceKind) (n : String) → any (is_named k n) s ≡ any (is_named k n) t)
    → valid_from prefix s items ≡ valid_from prefix t items
unfolding valid_from
valid_from-seen prefix s t [] h = refl
valid_from-seen prefix s t (item ∷ items) h = rw (
  h item.kind item.name,
  valid_from-seen prefix (item ∷ s) (item ∷ t) items
      (λ k n. ap (λ b. is_named k n item || b) (h k n)),
)

pub valid_from-append :
    (prefix : String) (e : JournalEntry) (seen items : List JournalEntry)
    → is_valid_entry prefix e ≡ true
    → any (is_named e.kind e.name) seen ≡ false
    → any (is_named e.kind e.name) items ≡ false
    → valid_from prefix seen items ≡ true
    → valid_from prefix seen (items ++ e ∷ []) ≡ true
unfolding valid_from
valid_from-append prefix e seen [] v s i h = ground arith
valid_from-append prefix e seen (item ∷ items) v s i h =
    ground (arith, valid_from-append prefix e (item ∷ seen) items v, is_named_sym e item)

module _ (prefix : String) (kind : ResourceKind) (name : String) (test : JournalEntry → Bool)
    (f : JournalEntry → JournalEntry) (fk : (item : JournalEntry) → (f item).kind ≡ item.kind)
    (fn : (item : JournalEntry) → (f item).name ≡ item.name)
    (fv : (item : JournalEntry)
      → is_named kind name item ≡ true
      → test item ≡ true
      → is_valid_entry prefix item ≡ true
      → is_valid_entry prefix (f item) ≡ true) where
  changed_seen :
      (item : JournalEntry) (seen items : List JournalEntry)
      → valid_from prefix (f item ∷ seen) items ≡ valid_from prefix (item ∷ seen) items
  unfolding is_named
  changed_seen item seen items =
      valid_from-seen prefix (f item ∷ seen) (item ∷ seen) items (λ k n. rw (fk item, fn item))

  named_seen :
      (item : JournalEntry) (seen : List JournalEntry)
      → any (is_named (f item).kind (f item).name) seen ≡ any (is_named item.kind item.name) seen
  named_seen item seen = rw (fk item, fn item)

  changed_head :
      (v v' s r : Bool) → (v ≡ true → v' ≡ true) → v && s && r ≡ true → v' && s && r ≡ true
  changed_head v v' s r k h = ground arith

  pub valid_from-update :
      (seen items : List JournalEntry)
      → entry_is test (find (is_named kind name) items) ≡ true
      → valid_from prefix seen items ≡ true
      → valid_from prefix seen (update kind name f items) ≡ true
  unfolding valid_from update
  valid_from-update seen [] t h = refl
  valid_from-update seen (item ∷ items) t h = elim (Bool-cases (is_named kind name item)) [
    | inl named ↦ rw named (
        rw (changed_seen item seen items) (
          rw (named_seen item seen)
            (changed_head _ _ _ _ (fv item named (ground (arith, named, t))) h)))
    | inr apart ↦ rw apart (ground (arith, apart, valid_from-update (item ∷ seen) items))
  ]

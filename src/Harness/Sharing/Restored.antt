-- ===== src/Harness/Sharing/Restored.antt =====
-- Facts for `restore` of BorrowedSharing (borrowed-sharing.ts): the entry of a provider under the
-- assignments, and what a call of `current` that returned has seen.
use aippliance_magic_stick.Prelude.{
  true, false, Option, some, List, [], ◌∷◌, find, ◌≡◌, refl, ◌∙◌, arith,
}
use aippliance_magic_stick.Prelude.Result.{Action, pure}
use aippliance_magic_stick.Prelude.Keeps.{Returns, Returns-continue, Returns-of_kept}
use aippliance_magic_stick.Harness.Errors.{ReasonCode, Thrown}
use aippliance_magic_stick.Harness.Errors.Requires.{Returns-require}
use aippliance_magic_stick.Harness.Sharing.Spec.{Provider, Spec, Json, same_spec}
use aippliance_magic_stick.Harness.Sharing.Entry.{
  EntryState, BorrowedEntry, SharingData, same_provider, is_state,
}
use aippliance_magic_stick.Harness.Sharing.Methods.{
  SharingSnapshot, Change, to_state, advance, changed, update, Ports, Cell, world, current,
  same_object, same_state,
}
use aippliance_magic_stick.Harness.Sharing.Keeps.{IsStable}

abbrev pub entry_at : Provider → SharingData → Option BorrowedEntry
entry_at p d = find (λ e. same_provider e.provider p) d.entries

-- Providers.
pub same_provider_refl : (p : Provider) → same_provider p p ≡ true
same_provider_refl Provider.amd = refl
same_provider_refl Provider.nvidia = refl

same_provider_trans :
    (p q r : Provider) → same_provider p q ≡ true → same_provider p r ≡ same_provider q r
same_provider_trans Provider.amd Provider.amd r h = refl
same_provider_trans Provider.nvidia Provider.nvidia r h = refl
same_provider_trans Provider.amd Provider.nvidia r h = cc
same_provider_trans Provider.nvidia Provider.amd r h = cc

changed-provider : (f : Change) (e : BorrowedEntry) → (changed f e).provider ≡ e.provider
changed-provider (to_state s) e = refl
changed-provider (advance n spec) e = refl

changed-original : (f : Change) (e : BorrowedEntry) → (changed f e).original_spec ≡ e.original_spec
changed-original (to_state s) e = refl
changed-original (advance n spec) e = refl

pub find-update_other :
    (p q : Provider) (f : Change) (es : List BorrowedEntry)
    → same_provider p q ≡ false
    → find (λ e. same_provider e.provider q) (update p f es)
      ≡ find (λ e. same_provider e.provider q) es
find-update_other p q f [] h = refl
find-update_other p q f (e ∷ es) h =
    ground (
      arith,
      find-update_other p q f es h,
      same_provider_trans e.provider p q,
      changed-provider f e,
    )

pub find-update_same :
    (p : Provider) (f : Change) (es : List BorrowedEntry) {e : BorrowedEntry}
    → find (λ e. same_provider e.provider p) es ≡ some e
    → find (λ e. same_provider e.provider p) (update p f es) ≡ some (changed f e)
find-update_same p f [] h = ground (arith, h)
find-update_same p f (x ∷ es) {e} h =
    ground (arith, find-update_same p f es {e = e}, changed-provider f x)

-- The settings of the entries of other providers stay as they are.
pub IsStable-other :
    (p q : Provider) (P : Option BorrowedEntry → Type 0)
    → same_provider p q ≡ false
    → IsStable p (λ d. P (entry_at q d))
IsStable-other p q P h = record { kept = λ f a d k. rw (find-update_other p q f d.entries h) k }

-- The entry of a provider was borrowed with this setting.
abbrev pub HasOriginal : Provider → Spec → SharingData → Type 0
HasOriginal p spec d = (e : BorrowedEntry) × (entry_at p d ≡ some e) × (e.original_spec ≡ spec)

pub IsStable-HasOriginal : (p : Provider) (spec : Spec) → IsStable p (HasOriginal p spec)
IsStable-HasOriginal p spec = record {
  kept =
      λ f a d k. (changed f k.0, find-update_same p f d.entries k.1, changed-original f k.0 ∙ k.2);
}

-- A given-back setting: the entry is marked so, and its last spec is the one it was borrowed with.
abbrev pub IsSettled : BorrowedEntry → Type 0
IsSettled e =
    (is_state e.state EntryState.restored ≡ true) × (same_spec e.last_spec e.original_spec ≡ true)

abbrev pub Settles : Provider → SharingData → Type 0
Settles p d = (e : BorrowedEntry) × (entry_at p d ≡ some e) × IsSettled e

module _ {W : Type 0} (js : Json) (ports : Ports W) where
  Returns-world :
      {A : Type 0} (m : Action Thrown W A) (c : Cell W)
      → Returns (λ _ (s : Cell W). s.sharing ≡ c.sharing) (world js ports m c)
  Returns-world m c = Returns-of_kept (λ (s : Cell W). s.sharing ≡ c.sharing) _ refl

  abbrev pub Sees : SharingData → BorrowedEntry → SharingSnapshot → Cell W → Type 0
  Sees d e value s = (s.sharing ≡ d) × (same_object js ports e value ≡ true)

  pub current_lem :
      (p : Provider) (e : BorrowedEntry) (c : Cell W)
      → entry_at p c.sharing ≡ some e
      → Returns (Sees c.sharing e) (current js ports p c)
  unfolding current
  current_lem p e c h = rw h (
      Returns-continue (λ _ (s : Cell W). s.sharing ≡ c.sharing) (Sees c.sharing e) _
        (world js ports ports.assert_held c) (Returns-world ports.assert_held c)
        (λ u s k.
          Returns-continue (λ _ (t : Cell W). t.sharing ≡ c.sharing) (Sees c.sharing e) _
            (world js ports (ports.read p) s)
            (Returns-of_kept (λ (t : Cell W). t.sharing ≡ c.sharing) _ k)
            (λ value t l.
              Returns-require (Sees c.sharing e) (same_object js ports e value) ReasonCode.conflict
                _ t
                (λ same.
                  Returns-require (Sees c.sharing e)
                    (same_state js ports t.sharing.identity e value) ReasonCode.identity
                    (pure value) t (λ _. (l, same))))))

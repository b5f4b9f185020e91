-- ===== src/Harness/Sharing/Settled.antt =====
-- `restore` of BorrowedSharing (borrowed-sharing.ts): what holds of the whole record once it
-- returns.
use aippliance_magic_stick.Prelude.{
  Bool, true, false, Option, some, List, [], ◌∷◌, ◌++◌, ◌||◌, find, find-holds, map, reverse, any,
  ◌≡◌, ◌⊎◌, refl, sym, subst, ◌∙◌, arith, Bool-cases, Option-cases, inl, inr, if◌then◌else◌,
}
use mathlib.Core.List.{reverse-append}
use aippliance_magic_stick.Prelude.Result.{Result, ok, err, pure, ◌>>=◌}
use aippliance_magic_stick.Prelude.Keeps.{Returns, Returns-continue, Returns-of_kept}
use aippliance_magic_stick.Harness.Errors.{ReasonCode}
use aippliance_magic_stick.Harness.Errors.Requires.{Returns-require}
use aippliance_magic_stick.Harness.Sharing.Spec.{Provider, Json, same_spec}
use aippliance_magic_stick.Harness.Sharing.Entry.{
  EntryState, BorrowedEntry, SharingData, same_provider, is_state,
}
use aippliance_magic_stick.Harness.Sharing.Methods.{to_state, Ports, Cell, entry_of}
use aippliance_magic_stick.Harness.Sharing.Wait.{Timing}
use aippliance_magic_stick.Harness.Sharing.Restore.{
  give_back, give_back_unless, give_back_all, restore,
}
use aippliance_magic_stick.Harness.Sharing.Keeps.{Keeps-give_back}
use aippliance_magic_stick.Harness.Sharing.Restored.{
  entry_at, Settles, IsStable-other, find-update_other,
}
use aippliance_magic_stick.Harness.Sharing.GivenBack.{SettlesHere, give_back-Settles}

-- An entry that is marked as restored has its original spec.
abbrev pub IsProper : SharingData → Type 0
IsProper d =
    (q : Provider) (e : BorrowedEntry)
    → entry_at q d ≡ some e
    → is_state e.state EntryState.restored ≡ true
    → same_spec e.last_spec e.original_spec ≡ true

abbrev pub NotPending : Provider → SharingData → Type 0
NotPending q d =
    (e : BorrowedEntry) → entry_at q d ≡ some e → is_state e.state EntryState.pending ≡ false

abbrev listed : Provider → List Provider → Bool
listed q ps = any (λ p. same_provider p q) ps

Returns-both :
    {E S A : Type 0} (Q : A → S → Type 0) (P : S → Type 0) (r : Result E A × S)
    → Returns Q r
    → P r.1
    → Returns (λ a s. Q a s × P s) r
Returns-both Q P (ok a, s) q p = (q, p)
Returns-both Q P (err e, s) q p = tt

eq_of-same_provider : (p q : Provider) → same_provider p q ≡ true → p ≡ q
eq_of-same_provider Provider.amd Provider.amd h = refl
eq_of-same_provider Provider.nvidia Provider.nvidia h = refl
eq_of-same_provider Provider.amd Provider.nvidia h = cc
eq_of-same_provider Provider.nvidia Provider.amd h = cc

Returns-and :
    {E S A : Type 0} (Q R : A → S → Type 0) (r : Result E A × S)
    → Returns Q r
    → Returns R r
    → Returns (λ a s. Q a s × R a s) r
Returns-and Q R (ok a, s) q p = (q, p)
Returns-and Q R (err e, s) q p = tt

restored-not_pending :
    (s : EntryState) → is_state s EntryState.restored ≡ true → is_state s EntryState.pending ≡ false
restored-not_pending s h = ground arith

borrowed-not_pending :
    (s : EntryState) → is_state s EntryState.borrowed ≡ true → is_state s EntryState.pending ≡ false
borrowed-not_pending s h = ground arith

Returns-map :
    {E S A : Type 0} (Q R : A → S → Type 0) (r : Result E A × S)
    → Returns Q r
    → ((a : A) (s : S) → Q a s → R a s)
    → Returns R r
Returns-map Q R (ok a, s) q f = f a s q
Returns-map Q R (err e, s) q f = tt

NotPending-of :
    (p : Provider) (e : BorrowedEntry) (d : SharingData)
    → entry_at p d ≡ some e
    → is_state e.state EntryState.pending ≡ false
    → NotPending p d
NotPending-of p e d h n x k = let same : e ≡ x = cc in rw (sym same) n

listed-append :
    (q : Provider) (ps qs : List Provider) → listed q (ps ++ qs) ≡ (listed q ps || listed q qs)
listed-append q [] qs = refl
listed-append q (p ∷ ps) qs = ground (arith, listed-append q ps qs)

-- The loop has a turn for each provider that has an entry.
listed-reverse :
    (q : Provider) (ps : List Provider) → listed q ps ≡ true → listed q (reverse ps) ≡ true
listed-reverse q [] h = cc
listed-reverse q (p ∷ ps) h =
    rw (reverse-append (p ∷ []) ps)
      (ground (arith, listed-append q (reverse ps) (p ∷ []), listed-reverse q ps))

listed-providers :
    (q : Provider) (es : List BorrowedEntry) {e : BorrowedEntry}
    → find (λ x. same_provider x.provider q) es ≡ some e
    → listed q (map (λ (x : BorrowedEntry). x.provider) es) ≡ true
listed-providers q [] h = cc
listed-providers q (x ∷ es) {e} h = ground (arith, listed-providers q es {e = e})

module _ {W : Type 0} (js : Json) (ports : Ports W) (timing : Timing W) where
  give_back-not_pending :
      (e : BorrowedEntry) (c : Cell W)
      → Returns (λ _ _. is_state e.state EntryState.pending ≡ false) (give_back js ports timing e c)
  unfolding give_back
  give_back-not_pending e c =
      Returns-require (λ _ _. is_state e.state EntryState.pending ≡ false)
        (is_state e.state EntryState.borrowed) ReasonCode.conflict _ c
        (λ b.
          Returns-of_kept (λ _. is_state e.state EntryState.pending ≡ false) _
            (borrowed-not_pending e.state b))

  give_back-elsewhere :
      (e : BorrowedEntry) (q : Provider) (c : Cell W)
      → same_provider e.provider q ≡ false
      → entry_at q (give_back js ports timing e c).1.sharing ≡ entry_at q c.sharing
  give_back-elsewhere e q c h =
      let P = λ (o : Option BorrowedEntry). o ≡ entry_at q c.sharing in
      (Keeps-give_back js ports timing (λ d. P (entry_at q d)) e (IsStable-other e.provider q P h)
          (λ d k.
            rw (find-update_other e.provider q (to_state EntryState.restored) d.entries h) k)).at
        c refl

  -- What one turn of the loop has done, by the record before it.
  abbrev Turned : Provider → SharingData → Unit {0} → Cell W → Type 0
  Turned p d u s =
      (Settles p s.sharing × NotPending p d)
      × ((q : Provider) → same_provider p q ≡ false → entry_at q s.sharing ≡ entry_at q d)

  turn_of_entry :
      (p : Provider) (e : BorrowedEntry) (c : Cell W)
      → e.provider ≡ p
      → entry_at p c.sharing ≡ some e
      → IsProper c.sharing
      → (b : Bool) → is_state e.state EntryState.restored ≡ b
      → Returns (Turned p c.sharing) ((if b then pure tt else give_back js ports timing e) c)
  turn_of_entry p e c n h proper true b = (
    ((e, h, (b, proper p e h b)), NotPending-of p e c.sharing h (restored-not_pending e.state b)),
    λ q d. refl,
  )
  turn_of_entry p e c n h proper false b =
      let back = give_back js ports timing e c in
      let settles : Returns (SettlesHere js ports timing p) back =
        subst (λ x. Returns (SettlesHere js ports timing x) back) n
          (give_back-Settles js ports timing e c
            (subst (λ x. entry_at x c.sharing ≡ some e) (sym n) h)) in
      let pending : Returns (λ _ _. NotPending p c.sharing) back =
        Returns-map (λ _ _. is_state e.state EntryState.pending ≡ false)
          (λ _ _. NotPending p c.sharing) back (give_back-not_pending e c)
          (λ _ _. NotPending-of p e c.sharing h) in
      Returns-both (λ u (s : Cell W). Settles p s.sharing × NotPending p c.sharing)
        (λ s.
          (q : Provider) → same_provider p q ≡ false → entry_at q s.sharing ≡ entry_at q c.sharing)
        back
        (Returns-and (SettlesHere js ports timing p) (λ _ _. NotPending p c.sharing) back settles
          pending)
        (λ q d. give_back-elsewhere e q c (subst (λ x. same_provider x q ≡ false) (sym n) d))

  turn :
      (p : Provider) (c : Cell W)
      → IsProper c.sharing
      → Returns (Turned p c.sharing) ((entry_of js ports p >>= give_back_unless js ports timing) c)
  turn p c proper = elim (Option-cases (entry_at p c.sharing)) [
    | inl missing ↦ rw missing tt
    | inr (e, h) ↦ rw h (
        turn_of_entry p e c
          (eq_of-same_provider e.provider p
            (find-holds (λ x. same_provider x.provider p) c.sharing.entries h))
          h proper (is_state e.state EntryState.restored) refl)
  ]

  -- What the loop over `ps` has done, by the record before it.
  abbrev Done : List Provider → SharingData → Unit {0} → Cell W → Type 0
  Done ps d u s =
      (q : Provider)
      → ((listed q ps ≡ true) → Settles q s.sharing × NotPending q d)
        × (Settles q d → Settles q s.sharing)

  IsProper-after :
      (p : Provider) (d : SharingData) (u : Unit {0}) (s : Cell W)
      → IsProper d
      → Turned p d u s
      → IsProper s.sharing
  IsProper-after p d u s proper t q e h m = elim (Bool-cases (same_provider p q)) [
    | inl same ↦
        (let (x, k, settled) = t.0.0 in
          let k' : entry_at q s.sharing ≡ some x = rw (sym (eq_of-same_provider p q same)) k in
          let eq : e ≡ x = cc in rw eq settled.1)
    | inr other ↦ proper q e (sym (t.1 q other) ∙ h) m
  ]

  Settles-after :
      (p q : Provider) (d : SharingData) (u : Unit {0}) (s : Cell W)
      → Turned p d u s
      → Settles q d
      → Settles q s.sharing
  Settles-after p q d u s t (x, k, settled) = elim (Bool-cases (same_provider p q)) [
    | inl same ↦ rw (sym (eq_of-same_provider p q same)) (t.0.0)
    | inr other ↦ (x, t.1 q other ∙ k, settled)
  ]

  Done-after :
      (p : Provider) (ps : List Provider) (d : SharingData) (u v : Unit {0}) (s t : Cell W)
      → Turned p d u s
      → Done ps s.sharing v t
      → Done (p ∷ ps) d v t
  Done-after p ps d u v s t first rest q = (
    λ m. by_head (Bool-cases (same_provider p q)) m,
    λ k. (rest q).1 (Settles-after p q d u s first k),
  )
    where
      by_head :
          (same_provider p q ≡ true) ⊎ (same_provider p q ≡ false)
          → listed q (p ∷ ps) ≡ true
          → Settles q t.sharing × NotPending q d
      by_head (inl same) m =
          ((rest q).1 (settles_here same), rw (sym (eq_of-same_provider p q same)) first.0.1)
        where
          settles_here : same_provider p q ≡ true → Settles q s.sharing
          settles_here same = rw (sym (eq_of-same_provider p q same)) first.0.0
      by_head (inr other) m =
          let found = (rest q).0 (rw other at m) in
          (found.0, λ e h. found.1 e (first.1 q other ∙ h))

  give_back_all-Done :
      (ps : List Provider) (c : Cell W)
      → IsProper c.sharing
      → Returns (Done ps c.sharing) (give_back_all js ports timing ps c)
  unfolding give_back_all
  give_back_all-Done [] c proper = λ q. (λ m. cc, λ k. k)
  give_back_all-Done (p ∷ ps) c proper =
      Returns-continue (Turned p c.sharing) (Done (p ∷ ps) c.sharing) _
        ((entry_of js ports p >>= give_back_unless js ports timing) c) (turn p c proper)
        (λ u s first.
          Returns-map (Done ps s.sharing) (Done (p ∷ ps) c.sharing)
            (give_back_all js ports timing ps s)
            (give_back_all-Done ps s (IsProper-after p c.sharing u s proper first))
            (λ v t rest. Done-after p ps c.sharing u v s t first rest))

  -- When restore returns, for a record in which every entry marked as restored has its original
  -- spec: no entry was pending, every entry is now marked as restored, and the spec that was
  -- journaled for it last is the one it was borrowed with. Whatever the ports answered, a record
  -- with a pending entry is never restored by a call that returns.
  pub restore-Settles :
      (c : Cell W)
      → IsProper c.sharing
      → Returns
          (λ _ (s : Cell W).
            (p : Provider) (e : BorrowedEntry)
            → entry_at p c.sharing ≡ some e
            → Settles p s.sharing × (is_state e.state EntryState.pending ≡ false))
          (restore js ports timing c)
  unfolding restore
  restore-Settles c proper =
      let ps = reverse (map (λ (e : BorrowedEntry). e.provider) c.sharing.entries) in
      Returns-map (Done ps c.sharing) _ (give_back_all js ports timing ps c)
        (give_back_all-Done ps c proper)
        (λ u s done p e h.
          let found = (done p).0 (
            listed-reverse p (map (λ (x : BorrowedEntry). x.provider) c.sharing.entries)
              (listed-providers p c.sharing.entries h)) in
          (found.0, found.1 e h))

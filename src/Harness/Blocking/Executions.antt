-- ===== src/Harness/Blocking/Executions.antt =====
-- What the counts over executions of `blockedCounts` (blocking.ts) add up to.
use aippliance_magic_stick.Prelude.{
  Bool, true, List, [], ◌∷◌, String, not, ◌&&◌, ◌||◌, or_else, any, filter, length, length-filter,
  Bool-cases, inl, inr, ◌≡◌, refl, sym, ◌∙◌, arith,
}
use aippliance_magic_stick.Prelude.Text.{str_eq, str_eq_iff}
use aippliance_magic_stick.Prelude.TextSets.{
  has_text, DistinctTexts, length_le-has_text, has_text-filter, DistinctTexts-filter, str_eq_refl,
}
use aippliance_magic_stick.Shared.Blocked.{total}
use aippliance_magic_stick.Harness.Blocking.{
  BlockingEvidence, Resolved, has_execution, group_key, with_blocked_causes,
}
use aippliance_magic_stick.Harness.Blocking.Counts.{
  in_group, group_keys, is_counted, blocked_counts, count-executions,
}

-- The row is of the execution with a key, and its outcome, `executionOutcome ?? outcome`, satisfies
-- a test.
abbrev pub of_execution : String → (String → Bool) → Resolved → Bool
of_execution k p row =
    (has_execution row.item.execution_id && str_eq (group_key row.item) k)
    && p (or_else row.item.execution_outcome row.item.outcome)

abbrev pub is_failure : String → Bool
is_failure outcome = str_eq outcome "Failed" || str_eq outcome "Flaky"

abbrev pub is_unpassed : String → Bool
is_unpassed outcome = not (str_eq outcome "Passed")

-- An execution is open if it has a row that did not pass, and none that is 'Failed' or 'Flaky'.
abbrev pub is_open : List Resolved → String → Bool
is_open rows k = any (of_execution k is_unpassed) rows && not (any (of_execution k is_failure) rows)

any-filter :
    {A : Type 0} (g p : A → Bool) (xs : List A) → any p (filter g xs) ≡ any (λ x. g x && p x) xs
any-filter g p [] = refl
any-filter g p (x ∷ xs) = ground (arith, any-filter g p xs)

any-both :
    {A : Type 0} (g p : A → Bool) (xs : List A) → any (λ x. g x && p x) xs ≡ true → any g xs ≡ true
any-both g p [] h = h
any-both g p (x ∷ xs) h = ground (arith, h, any-both g p xs)

group_keys-DistinctTexts : (rows : List Resolved) → DistinctTexts (group_keys rows)
unfolding group_keys
group_keys-DistinctTexts [] = tt
group_keys-DistinctTexts (row ∷ rows) =
    let k = group_key row.item in
    let other = λ (s : String). not (str_eq s k) in
    elim (Bool-cases (has_execution row.item.execution_id)) [
      | inl h ↦ rw h (
        ground (arith, has_text-filter other k (group_keys rows), str_eq_refl k),
        DistinctTexts-filter other (group_keys rows) (group_keys-DistinctTexts rows),
      )
      | inr h ↦ rw h (group_keys-DistinctTexts rows)
    ]

has_text-group_keys :
    (s : String) (rows : List Resolved) → has_text s (group_keys rows) ≡ any (in_group s) rows
unfolding group_keys
has_text-group_keys s [] = refl
has_text-group_keys s (row ∷ rows) =
    let k = group_key row.item in
    let other = λ (x : String). not (str_eq x k) in
    elim (Bool-cases (has_execution row.item.execution_id)) [
      | inl h ↦ rw h (
          with_key (str_eq k s) (str_eq s k) (any (in_group s) rows)
            (has_text s (filter other (group_keys rows))) (has_text s (group_keys rows))
            (has_text-filter other s (group_keys rows)) (has_text-group_keys s rows)
            (λ e. (str_eq_iff k s).1 (sym ((str_eq_iff s k).0 e))))
      | inr h ↦ rw h (has_text-group_keys s rows)
    ]
  where
    with_key :
        (a b c d e : Bool) → d ≡ (e && not b) → e ≡ c → (b ≡ true → a ≡ true) → (a || d) ≡ (a || c)
    with_key a b c d e p q r = ground (arith, p, q, r)

is_open-is_counted :
    (rows : List Resolved) (k : String)
    → (has_text k (group_keys rows) && is_counted rows k) ≡ is_open rows k
is_open-is_counted rows k =
    let outcome = λ (row : Resolved). or_else row.item.execution_outcome row.item.outcome in
    combine (has_text k (group_keys rows)) (any (in_group k) rows) _ _ _ _
      (has_text-group_keys k rows) (any-filter (in_group k) (λ row. is_failure (outcome row)) rows)
      (any-filter (in_group k) (λ row. is_unpassed (outcome row)) rows)
      (any-both (in_group k) (λ row. is_unpassed (outcome row)) rows)
  where
    combine :
        (m g f f' u u' : Bool)
        → m ≡ g
        → f ≡ f'
        → u ≡ u'
        → (u' ≡ true → g ≡ true)
        → (m && not (f || not u)) ≡ (u' && not f')
    combine m g f f' u u' p q r s = ground (arith, p, q, r, s)

-- The counts over executions add up to the number of open executions: to the length of any list of
-- keys without repetition that has exactly the keys of the executions in which some row did not
-- pass and no row is 'Failed' or 'Flaky'. Each is counted once, and no other.
pub total-executions :
    (is_case : String → Bool) (cases : List BlockingEvidence) (keys : List String)
    → DistinctTexts keys
    → ((k : String) → has_text k keys ≡ is_open (with_blocked_causes is_case cases) k)
    → total (blocked_counts is_case cases true) ≡ length keys
total-executions is_case cases keys distinct exactly =
    let rows = with_blocked_causes is_case cases in
    let counted = filter (is_counted rows) (group_keys rows) in
    let same : (k : String) → has_text k counted ≡ has_text k keys = λ k.
      has_text-filter (is_counted rows) k (group_keys rows)
      ∙ (is_open-is_counted rows k ∙ sym (exactly k)) in
    omega (
      arith,
      count-executions is_case cases,
      length-filter (is_counted rows) (group_keys rows),
      length_le-has_text counted keys
          (DistinctTexts-filter (is_counted rows) (group_keys rows) (group_keys-DistinctTexts rows))
          (λ s h. sym (same s) ∙ h),
      length_le-has_text keys counted distinct (λ s h. same s ∙ h),
    )

-- ===== src/Harness/Progress/Bounds.antt =====
-- The percentage that a snapshot of KubernetesProgress (kubernetes-progress.ts) reports.
use aippliance_magic_stick.Prelude.{
  ℕ, ◌≤◌, min, Bool, true, false, List, [], ◌∷◌, ◌&&◌, ◌==◌, length, ◌≡◌, refl, sym, ◌∙◌, arith,
  if◌then◌else◌, All, ==_iff,
}
use aippliance_magic_stick.Prelude.Members.{member, member-of_full}
use aippliance_magic_stick.Harness.Progress.{KubernetesProgress}
use aippliance_magic_stick.Harness.Progress.Snapshot.{percent, snapshot}
use aippliance_magic_stick.Harness.Progress.Consistent.{IsConsistent}

min_99 : (n : ℕ) → min 99 n ≤ 99
min_99 n = ground arith

percent_cases :
    (b : Bool) (n : ℕ)
    → ((if b then 100 else min 99 n) ≤ 100) × ((if b then 100 else min 99 n) ≡ 100 → b ≡ true)
percent_cases true n = (omega arith, λ _. refl)
percent_cases false n = (omega (arith, min_99 n), λ h. absurd (omega (arith, min_99 n, h)))

All-members :
    (xs : List ℕ) (zs : List ℕ)
    → ((n : ℕ) → member n zs ≡ true → member n xs ≡ true)
    → All (λ n. member n xs ≡ true) zs
All-members xs [] k = tt
All-members xs (z ∷ zs) k = (k z (ground arith), All-members xs zs (λ n m. k n (ground (arith, m))))

and_parts : (a b : Bool) → (a && b) ≡ true → (a ≡ true) × (b ≡ true)
and_parts a b h = ground (arith, h)

-- All phases have ended when as many have ended as the campaign has.
All-ended :
    (p : KubernetesProgress)
    → IsConsistent p
    → p.completed_phases ≡ length p.phases
    → All (λ n. member n p.ended ≡ true) p.phases
All-ended p v e =
    All-members p.ended p.phases
      (λ n m. member-of_full p.ended p.phases n v.distinct v.within (sym v.completed ∙ e) m)

-- For a state whose counters agree with its sets, the reported percentage is at most 100; it is
-- 100 only when the run has finished and every phase of the campaign has ended; and it is 100 when
-- the run has finished with as many phases ended as the campaign has.
pub percent_bounds :
    (finished : Bool) (p : KubernetesProgress)
    → IsConsistent p
    → ((snapshot finished p).percent ≤ 100)
      × ((snapshot finished p).percent ≡ 100
          → (finished ≡ true) × All (λ n. member n p.ended ≡ true) p.phases)
      × (finished ≡ true → length p.ended ≡ length p.phases → (snapshot finished p).percent ≡ 100)
unfolding snapshot percent
percent_bounds finished p v =
    let cases = percent_cases (finished && p.completed_phases == length p.phases) _ in
    (
      cases.0,
      λ h.
          let parts = and_parts finished _ (cases.1 h) in
          (parts.0, All-ended p v ((==_iff _ _).0 parts.1)),
      λ f e. rw (f, (==_iff p.completed_phases (length p.phases)).1 (v.completed ∙ e)) refl,
    )

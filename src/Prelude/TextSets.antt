-- ===== src/Prelude/TextSets.antt =====
-- Lists of texts without repetition: those with the same members have the same length.
use Prim.Native.Nat.{suc, ◌≤◌}
use Prim.Native.String.{String}
use mathlib.Core.Path.{◌≡◌, refl, sym, subst}
use mathlib.Core.Logic.{inl, inr}
use mathlib.Core.Bool.{Bool, true, false, ◌||◌, ◌&&◌}
use mathlib.Core.List.{List, [], ◌∷◌}
use native.Mathlib.Omega.{arith}
use text.Mathlib.TextEquality.{eq_iff as str_eq_iff}
use aippliance_magic_stick.Prelude.Tests.{if◌then◌else◌, Bool-cases}
use aippliance_magic_stick.Prelude.Lists.{length, filter}
use aippliance_magic_stick.Prelude.Text.{str_eq}

-- `xs.includes(s)`
abbrev pub has_text : String → List String → Bool
has_text s [] = false
has_text s (x ∷ xs) = str_eq x s || has_text s xs

abbrev pub DistinctTexts : List String → Type 0
DistinctTexts [] = Unit
DistinctTexts (x ∷ xs) = (has_text x xs ≡ false) × DistinctTexts xs

pub str_eq_refl : (s : String) → str_eq s s ≡ true
str_eq_refl s = (str_eq_iff s s).1 refl

-- The first occurrence is left out.
abbrev without : String → List String → List String
without s [] = []
without s (x ∷ xs) = let rest = without s xs in if str_eq x s then xs else x ∷ rest

length-without :
    (s : String) (ys : List String) → has_text s ys ≡ true → suc (length (without s ys)) ≡ length ys
length-without s [] h = ground (arith, h)
length-without s (y ∷ ys) h = ground (arith, length-without s ys)

has_text-without :
    (t s : String) (ys : List String)
    → str_eq s t ≡ false
    → has_text t ys ≡ true
    → has_text t (without s ys) ≡ true
has_text-without t s [] d h = h
has_text-without t s (y ∷ ys) d h = elim (Bool-cases (str_eq y s)) [
  | inl e ↦ rw e (ground (arith, h, subst (λ x. str_eq x t ≡ false) (sym ((str_eq_iff y s).0 e)) d))
  | inr n ↦ rw n (ground (arith, h, has_text-without t s ys d))
]

pub length_le-has_text :
    (xs ys : List String)
    → DistinctTexts xs
    → ((s : String) → has_text s xs ≡ true → has_text s ys ≡ true)
    → length xs ≤ length ys
length_le-has_text [] ys d h = omega arith
length_le-has_text (x ∷ xs) ys d h =
    let here : has_text x ys ≡ true = h x (ground (arith, str_eq_refl x)) in
    omega (
      arith,
      length-without x ys here,
      length_le-has_text xs (without x ys) d.1
          (λ s k. has_text-without s x ys (apart s k) (h s (ground (arith, k)))),
    )
  where
    apart : (s : String) → has_text s xs ≡ true → str_eq x s ≡ false
    apart s k = elim (Bool-cases (str_eq x s)) [
      | inl e ↦
          absurd (
            clash (has_text s xs) k (subst (λ y. has_text y xs ≡ false) ((str_eq_iff x s).0 e) d.0))
      | inr n ↦ n
    ]
      where
        clash : (b : Bool) → b ≡ true → b ≡ false → ⊥
        clash b p q = ground (arith, p, q)

pub has_text-filter :
    (p : String → Bool) (s : String) (xs : List String)
    → has_text s (filter p xs) ≡ (has_text s xs && p s)
has_text-filter p s [] = refl
has_text-filter p s (x ∷ xs) = elim (Bool-cases (str_eq x s)) [
  | inl e ↦
      subst (λ y. has_text y (filter p (x ∷ xs)) ≡ (has_text y (x ∷ xs) && p y))
        ((str_eq_iff x s).0 e) (ground (arith, str_eq_refl x, has_text-filter p x xs))
  | inr n ↦ ground (arith, n, has_text-filter p s xs)
]

pub DistinctTexts-filter :
    (p : String → Bool) (xs : List String) → DistinctTexts xs → DistinctTexts (filter p xs)
DistinctTexts-filter p [] d = tt
DistinctTexts-filter p (x ∷ xs) d = elim (Bool-cases (p x)) [
  | inl h ↦ rw h (ground (arith, has_text-filter p x xs, d.0), DistinctTexts-filter p xs d.1)
  | inr h ↦ rw h (DistinctTexts-filter p xs d.1)
]
